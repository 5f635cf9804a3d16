-- ===== src/Raw/Arp/Reply.antt =====
-- The reply of arpDeceit.c as getMacAddr.c reads it.
use unix_net.Common.{
  ℕ, ◌≡◌, refl, false, ◌&&◌, ◌==◌, none, some, List, [], ◌∷◌, ◌++◌, Bytes, All, Bool-cases, inl,
  inr,
}
use unix_net.ByteOrder.{Host, little, big, htons, store16, load16}
use unix_net.Raw.Frame.{field16, mac_text, ip_text}
use unix_net.Raw.Arp.{arp_reply, reply_of, await_reply}

-- A frame that is no ARP reply: its type is not that of ARP, or its operation is not that of a
-- reply.
abbrev pub IsOther : Host → Bytes → Type 0
IsOther host buf = ((field16 host buf 12 == 0x0806) && (field16 host buf 20 == 2)) ≡ false

reply_of-IsOther : (host : Host) (buf : Bytes) → IsOther host buf → reply_of host buf ≡ none
unfolding reply_of
reply_of-IsOther host buf h = elim (Bool-cases (field16 host buf 12 == 0x0806)) [
  | inl p ↦ rw p (rw (rw p at h) refl)
  | inr p ↦ rw p refl
]

-- Whatever the addresses, getMacAddr.c's loop passes over all frames that are no ARP reply, and
-- then takes the frame that arpDeceit.c builds as the reply: it ends with the sender's address that
-- the frame claims, and with the source address of the frame as the one that belongs to it.
pub await-arp_reply :
    (host : Host) (a0 a1 a2 a3 a4 a5 b0 b1 b2 b3 b4 b5 s0 s1 s2 s3 : ℕ) (des_ip : Bytes)
    (others frames : List Bytes)
    → All (IsOther host) others
    → let src_mac : Bytes = b0 ∷ b1 ∷ b2 ∷ b3 ∷ b4 ∷ b5 ∷ [] in
      let src_ip : Bytes = s0 ∷ s1 ∷ s2 ∷ s3 ∷ [] in
      await_reply host (
        others
        ++ (arp_reply host (a0 ∷ a1 ∷ a2 ∷ a3 ∷ a4 ∷ a5 ∷ []) src_mac src_ip des_ip ∷ frames))
      ≡ some (ip_text src_ip 0, mac_text src_mac 0)
unfolding await_reply
await-arp_reply little a0 a1 a2 a3 a4 a5 b0 b1 b2 b3 b4 b5 s0 s1 s2 s3 d [] frames h =
    unfold arp_reply reply_of htons store16 load16 ip_text mac_text in refl
await-arp_reply big a0 a1 a2 a3 a4 a5 b0 b1 b2 b3 b4 b5 s0 s1 s2 s3 d [] frames h =
    unfold arp_reply reply_of htons store16 load16 ip_text mac_text in refl
await-arp_reply host a0 a1 a2 a3 a4 a5 b0 b1 b2 b3 b4 b5 s0 s1 s2 s3 d (o ∷ os) frames h =
    rw (reply_of-IsOther host o h.0)
      (await-arp_reply host a0 a1 a2 a3 a4 a5 b0 b1 b2 b3 b4 b5 s0 s1 s2 s3 d os frames h.1)
