-- ===== src/Tun2socks/Flow.antt =====
-- The bytes from the device over a whole history of a client.
use matador.Base.{ℕ, ◌≡◌, refl, sym, ap, ◌∙◌, Option, some, [], ◌++◌, append_assoc}
use matador.Memory.{Bytes}
use matador.Tun2socks.{Client, Lwip}
use matador.Tun2socks.Events.{accepted, Event, step}
use matador.Tun2socks.Offered.{IsOffered, accepted-IsOffered, step-IsOffered}
use matador.Tun2socks.Conserved.{given, taken, IsReport, step-conserves}

-- A history of a client, with all that the device gave and all that the SOCKS client took.
pub data Flow (num : ℕ) : Client → Bytes → Bytes → Type 0 where
  began : (junk : Option Bytes) → Flow num (accepted num junk) [] []
  went :
      (k : Lwip) (e : Event) {c d : Client} {got passed : Bytes}
      → Flow num c got passed
      → IsReport e c
      → step k e c ≡ some d
      → Flow num d (got ++ given e c) (passed ++ taken e c)

Flow-IsOffered : (num : ℕ) (c : Client) (got passed : Bytes) → Flow num c got passed → IsOffered c
Flow-IsOffered num c got passed (began junk) = accepted-IsOffered num junk
Flow-IsOffered num c got passed (went k e {c = b} {got = g} {passed = p} f h s) =
    (step-IsOffered k e b (Flow-IsOffered num b g p f)).at c s

Flow-splits :
    (num : ℕ) (c : Client) (got passed : Bytes) → Flow num c got passed → got ≡ passed ++ c.buf
Flow-splits num c got passed (began junk) = unfold accepted in refl
Flow-splits num c got passed (went k e {c = b} {got = g} {passed = p} f h s) =
    ap (λ x. x ++ given e b) (Flow-splits num b g p f)
    ∙ (append_assoc p b.buf (given e b)
        ∙ (ap (◌++◌ p) ((step-conserves k e b (Flow-IsOffered num b g p f) h).at c s)
            ∙ sym (append_assoc p (taken e b) c.buf)))

-- Take as sent the bytes that the SOCKS client reports, each time the first of those that it was
-- handed last, of which it reports no more than there are. What it has sent of a connection is then a
-- prefix of what the device has sent on it, and the rest is in the buffer, also if one side is closed
-- in between. While there is anything in the buffer, what the SOCKS client was handed last is what
-- the buffer begins with, and is not empty once the connection through the SOCKS server is up.
pub Flow-prefix :
    (num : ℕ) (c : Client) (got passed : Bytes)
    → Flow num c got passed
    → (got ≡ passed ++ c.buf) × IsOffered c
Flow-prefix num c got passed f = (Flow-splits num c got passed f, Flow-IsOffered num c got passed f)
