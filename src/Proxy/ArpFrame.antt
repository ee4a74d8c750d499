-- ===== src/Proxy/ArpFrame.antt =====
-- The ARP frames that the proxy sends.
use matador.Base.{ℕ, ◌≡◌, refl, arith, some, [], ◌∷◌, ◌++◌, length, replicate}
use matador.Memory.{Bytes, be16, be32, write_at}
use matador.Proxy.Arp.{gratuitous_arp}

-- An Ethernet frame to `dst` that says, as an ARP reply, that `addr` is at `mac`.
abbrev pub arp_reply : Bytes → Bytes → ℕ → Bytes
arp_reply dst mac addr =
    dst
    ++ (mac
        ++ (be16 0x0806
            ++ (be16 1
                ++ (be16 0x0800
                    ++ (6 ∷ 4 ∷ (be16 2 ++ (mac ++ (be32 addr ++ (mac ++ be32 addr)))))))))

-- The gratuitous frame is the ARP reply for the interface's own address, sent to everybody.
pub gratuitous_arp-arp_reply :
    (mac : Bytes) (addr : ℕ)
    → length mac ≡ 6
    → gratuitous_arp mac addr ≡ some (arp_reply (replicate 6 0xff) mac addr)
unfolding gratuitous_arp write_at
gratuitous_arp-arp_reply (a ∷ b ∷ c ∷ d ∷ e ∷ f ∷ []) addr h = refl
gratuitous_arp-arp_reply _ addr h = absurd (omega arith)

pub length-arp_reply :
    (dst mac : Bytes) (addr : ℕ)
    → length dst ≡ 6
    → length mac ≡ 6
    → length (arp_reply dst mac addr) ≡ 42
length-arp_reply (a ∷ b ∷ c ∷ d ∷ e ∷ f ∷ []) (g ∷ h ∷ i ∷ j ∷ k ∷ l ∷ []) addr p q = refl
length-arp_reply (a ∷ b ∷ c ∷ d ∷ e ∷ f ∷ []) _ addr p q = absurd (omega arith)
length-arp_reply _ mac addr p q = absurd (omega arith)
