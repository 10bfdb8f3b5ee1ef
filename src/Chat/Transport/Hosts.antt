-- ===== src/Chat/Transport/Hosts.antt =====
-- internal/chat/transport.go, publicTalkDomain: what the guard lets through.
use vayu_mail_mobile.Base.{
  split_and, ℕ, ◌≤◌, ◌≡◌, ◌≢◌, refl, sym, ap, ◌∙◌, Memᴰ, eq_bytes_refl, Bool, true, false, ◌&&◌,
  ◌||◌, not, inl, inr, [], ◌∷◌, ◌++◌, append_assoc, append-nil, Bytes, codes, map, lower, length,
  eq_bytes, leb, ◌==◌, ==_iff, leb→le, All, All-append, Bool-cases, arith,
}
use vayu_mail_mobile.Chat.Transport.{
  is_alnum, labels, inner_label, is_label, all_labels, mail_host_re, public_talk_domain,
}

abbrev pub host_byte : ℕ → Bool
host_byte c = is_alnum c || c == 45 || c == 46

abbrev pub IsHostByte : ℕ → Type 0
IsHostByte c = host_byte c ≡ true

alnum-IsHostByte : (c : ℕ) → is_alnum c ≡ true → IsHostByte c
alnum-IsHostByte c h = rw h refl

inner_byte : (c : ℕ) → (is_alnum c || c == 45) ≡ true → IsHostByte c
inner_byte c h = elim (Bool-cases (is_alnum c)) [
  | inl alnum ↦ rw alnum refl
  | inr other ↦ let d : (c == 45) ≡ true = rw other at h in rw other (rw d refl)
]

inner_label-IsHostByte : (s : Bytes) → inner_label s ≡ true → All IsHostByte s
unfolding inner_label
inner_label-IsHostByte [] h = tt
inner_label-IsHostByte (c ∷ []) h = (alnum-IsHostByte c h, tt)
inner_label-IsHostByte (c ∷ d ∷ s) h =
    let (a, b) = split_and (is_alnum c || c == 45) (inner_label (d ∷ s)) h in
    (inner_byte c a, inner_label-IsHostByte (d ∷ s) b)

is_label-IsHostByte : (s : Bytes) → is_label s ≡ true → All IsHostByte s
unfolding is_label
is_label-IsHostByte [] h = tt
is_label-IsHostByte (c ∷ []) h = (alnum-IsHostByte c h, tt)
is_label-IsHostByte (c ∷ d ∷ s) h =
    let (a, b) = split_and (is_alnum c && inner_label (d ∷ s)) (leb (length (c ∷ d ∷ s)) 63) h in
    let (alnum, rest) = split_and (is_alnum c) (inner_label (d ∷ s)) a in
    (alnum-IsHostByte c alnum, inner_label-IsHostByte (d ∷ s) rest)

All-suffix : (s t : Bytes) → All IsHostByte (s ++ t) → All IsHostByte t
All-suffix [] t h = h
All-suffix (c ∷ s) t (_, h) = All-suffix s t h

dot_byte : (c : ℕ) → (c == 46) ≡ true → IsHostByte c
dot_byte c e = let f : c ≡ 46 = (==_iff c 46).0 e in rw f refl

labels-IsHostByte :
    (s label : Bytes) → all_labels (labels s label) ≡ true → All IsHostByte (label ++ s)
unfolding labels all_labels
labels-IsHostByte [] label h =
    rw (append-nil label) (is_label-IsHostByte label (split_and (is_label label) true h).0)
labels-IsHostByte (c ∷ s) label h = elim (Bool-cases (c == 46)) [
  | inl dot ↦
      let (first, rest) = split_and (is_label label) (all_labels (labels s [])) (rw dot at h) in
      All-append IsHostByte label (c ∷ s) (is_label-IsHostByte label first)
        (dot_byte c dot, labels-IsHostByte s [] rest)
  | inr byte ↦
      let whole = labels-IsHostByte s (label ++ c ∷ []) (rw byte at h) in
      rw (append_assoc label (c ∷ []) s) at whole
]

not_two : 2 ≤ 1 → ⊥
not_two h = omega arith

not_false_lem : (b : Bool) → not b ≡ true → b ≡ false
not_false_lem b h = ground arith

contrary : {b : Bool} → not b ≡ true → b ≡ true → ⊥
contrary {b} h e = ground arith

labels_dot : (s label : Bytes) → 2 ≤ length (labels s label) → Memᴰ 46 s
unfolding labels
labels_dot [] label h = absurd (not_two h)
labels_dot (c ∷ s) label h = elim (Bool-cases (c == 46)) [
  | inl dot ↦ Memᴰ.head (sym ((==_iff c 46).0 dot))
  | inr byte ↦ Memᴰ.tail (labels_dot s (label ++ c ∷ []) (rw byte at h))
]

-- A domain that the guard accepts consists of ASCII letters, digits, hyphens and full stops, has at least
-- one full stop and at most 253 bytes, is not localhost in any case, and is no address that net.ParseIP
-- knows. So it brings no port, path, user or scheme into the URL that it is put in.
pub public_talk_domain-IsHostByte :
    (is_ip : Bytes → Bool) (domain : Bytes)
    → public_talk_domain is_ip domain ≡ true
    → All IsHostByte domain
      × Memᴰ 46 domain
      × (length domain ≤ 253)
      × (map lower domain ≢ codes "localhost")
      × (is_ip domain ≡ false)
unfolding public_talk_domain mail_host_re
public_talk_domain-IsHostByte is_ip domain h =
    let (abcd, re) = split_and _ (mail_host_re domain) h in
    let (abc, no_ip) = split_and _ (not (is_ip domain)) abcd in
    let (ab, no_local) = split_and _ (not (eq_bytes (map lower domain) (codes "localhost"))) abc in
    let (a, short) = split_and (not (eq_bytes domain [])) (leb (length domain) 253) ab in
    let (two, good) =
      split_and (leb 2 (length (labels domain []))) (all_labels (labels domain [])) re in
    (
      labels-IsHostByte domain [] good,
      labels_dot domain [] (leb→le 2 (length (labels domain [])) two),
      leb→le (length domain) 253 short,
      (λ same.
          contrary no_local
            (ap (λ t. eq_bytes t (codes "localhost")) same ∙ eq_bytes_refl (codes "localhost"))),
      not_false_lem (is_ip domain) no_ip,
    )
