-- ===== src/Examples/Stun.antt =====
-- Concrete runs of measurement_proxy/ministun.c: a server that answers in the second round.
use matador.Base.{
  ℕ, zero, suc, ◌≡◌, ◌≤◌, ◌<◌, refl, arith, true, none, some, List, [], ◌⊎◌, ◌∷◌, ◌++◌, length,
  replicate, length-replicate, Runs, if◌then◌else◌, ltb,
}
use matador.Base.Int.{pos, minus_one}
use matador.Memory.{Bytes, be16, be16_at}
use matador.Socket.{SockaddrIn, zero_addr}
use matador.Stun.{Handled, stun_get_mapped, stun_handle_packet, sizeof_stun_header, stun_ignore}
use matador.Stun.Bounds.{stun_handle_packet-Runs}
use matador.Stun.Message.{Attr, mapped, other, encode_attr, encode, mapped_address}
use matador.Stun.Parse.{stun_handle_packet-encode}
use matador.Stun.Request.{Round, Requested, stun_request, stun_count}
use matador.Stun.Rounds.{the_request, IsFailed, timed_out, IsAnswered}
use matador.Stun.Retries.{stun_request-Runs, stun_request-answers}

abbrev server : SockaddrIn
server = record { sin_port = 3478; s_addr = 3405803777 }

abbrev id : Bytes
id = replicate 16 7

abbrev junk : Bytes
junk = replicate 1024 170

junk_size : length junk ≡ 1024
junk_size = length-replicate {A = ℕ} 1024 170

abbrev header : Bytes
header = be16 0x0101 ++ (be16 18 ++ id)

abbrev attrs : List Attr
attrs = other 0x8022 (b'v' ∷ b'1' ∷ []) ∷ mapped 0 1 4660 3405803781 ∷ []

abbrev message : Bytes
message = encode attrs

abbrev quiet_round : Round
quiet_round = record { sent = pos 20; selected = pos 0; received = none }

abbrev rounds : ℕ → Round
rounds zero = quiet_round
rounds (suc n) = record {
  sent = pos 20;
  selected = pos 1;
  received = some (header ++ (message ++ []));
}

advertised : be16_at header 2 ≡ some 18
unfolding be16_at
advertised = refl

size_of_message : length message ≡ 18
unfolding encode encode_attr
size_of_message = refl

size_of_reply : length (header ++ (message ++ [])) ≡ 38
unfolding encode encode_attr
size_of_reply = refl

rounds-IsFailed : (j : ℕ) → j < 1 → IsFailed (rounds j)
rounds-IsFailed zero h = timed_out refl
rounds-IsFailed (suc j) h = absurd (omega arith)

second-IsAnswered : IsAnswered (rounds 1) (header ++ (message ++ []))
second-IsAnswered = record {
  sent = refl;
  ready = refl;
  received = refl;
  size = (omega (arith, size_of_reply), omega (arith, size_of_reply));
}

mapped_address-message :
    mapped_address zero_addr attrs ≡ record { sin_port = 4660; s_addr = 3405803781 }
unfolding mapped_address
mapped_address-message = refl

stun_handle_packet-encode_example :
    Runs
      (λ (r : Handled). (r.ret ≡ pos stun_ignore) × (r.arg ≡ mapped_address zero_addr attrs))
      (stun_handle_packet
        (header ++ (message ++ ([] ++ (0 ∷ []))))
        38
        (some stun_get_mapped)
        zero_addr)
stun_handle_packet-encode_example =
    stun_handle_packet-encode header attrs [] (0 ∷ []) 18 38 zero_addr refl advertised
      ((omega arith, omega arith, λ e. absurd (omega arith)), ((omega arith, omega arith), tt)) tt
      (omega arith) (omega (arith, size_of_message)) (omega arith)

stun_handle_packet-Runs_example :
    Runs
      (λ (r : Handled).
        (length r.buf ≡ length junk)
        × (r.ret ≡ (if ltb 100 sizeof_stun_header then minus_one else pos stun_ignore))
        × (ltb 100 sizeof_stun_header ≡ true → (r.buf ≡ junk) × (r.arg ≡ zero_addr)))
      (stun_handle_packet junk 100 (some stun_get_mapped) zero_addr)
stun_handle_packet-Runs_example =
    stun_handle_packet-Runs junk 100 zero_addr (omega (arith, junk_size))

stun_request-answers_example :
    stun_request stun_count server id junk junk rounds (some zero_addr)
    ≡ some (record {
      ret = pos 0;
      answer = some (mapped_address zero_addr attrs);
      sends = replicate 2 (the_request server id);
    })
stun_request-answers_example =
    stun_request-answers stun_count server id junk junk rounds refl junk_size junk_size 1 18
      zero_addr header attrs [] (omega arith) rounds-IsFailed second-IsAnswered refl advertised
      (omega (arith, size_of_reply, size_of_message))
      ((omega arith, omega arith, λ e. absurd (omega arith)), ((omega arith, omega arith), tt)) tt

stun_request-Runs_example :
    Runs
      (λ (r : Requested).
        (r.sends ≡ replicate (length r.sends) (the_request server id))
        × (length r.sends ≤ stun_count)
        × ((r.ret ≡ pos 0) ⊎ ((r.ret ≡ minus_one) × (r.answer ≡ some zero_addr))))
      (stun_request stun_count server id junk junk rounds (some zero_addr))
stun_request-Runs_example =
    stun_request-Runs stun_count server id junk junk rounds refl junk_size junk_size zero_addr
