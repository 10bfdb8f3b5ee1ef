-- ===== src/Mime/Track/Hosts.antt =====
-- internal/mail/mime/track.go, urlHitsTrackerHost: which hosts count as trackers.
use vayu_mail_mobile.Base.{
  split_and, ℕ, zero, suc, ◌-◌, ◌≡◌, ◌⊎◌, ◌↔◌, refl, ap, ◌∙◌, Memᴰ, All, until, ◌==◌, Bool, true,
  false, ◌||◌, List, [], ◌∷◌, ◌++◌, Bytes, eq_bytes, eq_bytes_sound, eq_bytes_refl, has_suffix,
  has_prefix, map, lower, codes, length, take, drop, leb, le→leb, length-append, drop-append_length,
  Bool-cases, inl, inr, arith,
}
use vayu_mail_mobile.Mime.Track.{
  ends_host, is_on, tracker_hosts, host_of, hits, url_hits_tracker_host,
}

take-drop : (n : ℕ) (s : Bytes) → s ≡ take n s ++ drop n s
take-drop zero s = refl
take-drop (suc n) [] = refl
take-drop (suc n) (c ∷ s) = ap (λ t. c ∷ t) (take-drop n s)

abbrev EndsWith : Bytes → Bytes → Type 0
EndsWith s t = (front : Bytes) × (s ≡ front ++ t)

or_true : (a b : Bool) → (a || true || b) ≡ true
or_true a b = ground arith

or_last : (a b : Bool) → (a || b || true) ≡ true
or_last a b = ground arith

suffix-EndsWith : (s t : Bytes) → has_suffix s t ≡ true → EndsWith s t
unfolding has_suffix
suffix-EndsWith s t h =
    let same : drop (length s - length t) s ≡ t =
      eq_bytes_sound (drop (length s - length t) s) t
        (split_and (leb (length t) (length s)) (eq_bytes (drop (length s - length t) s) t) h).1 in
    (
      take (length s - length t) s,
      take-drop (length s - length t) s ∙ ap (λ u. take (length s - length t) s ++ u) same,
    )

EndsWith-suffix : (front t : Bytes) → has_suffix (front ++ t) t ≡ true
unfolding has_suffix
EndsWith-suffix front t =
    let len = length-append front t in
    let fits : leb (length t) (length (front ++ t)) ≡ true =
      le→leb (length t) (length (front ++ t)) (omega (arith, len)) in
    let cut : length (front ++ t) - length t ≡ length front = omega (arith, len) in
    rw fits (rw cut (rw (drop-append_length front t) (eq_bytes_refl t)))

-- the host is `t` or one of its subdomains
abbrev pub Under : Bytes → Bytes → Type 0
Under host t = (host ≡ t) ⊎ ((front : Bytes) × (host ≡ front ++ b'.' ∷ t))

Under-is_on :
    (host t : Bytes) (hosts : List Bytes) → Under host t → Memᴰ t hosts → is_on host hosts ≡ true
unfolding is_on
Under-is_on host t [] u at = elim at [ ]
Under-is_on host t (h ∷ hosts) (inl e) (Memᴰ.head at) = rw e (rw at (rw (eq_bytes_refl h) refl))
Under-is_on host t (h ∷ hosts) (inr (front, e)) (Memᴰ.head at) = rw e (
    rw at (
      rw (EndsWith-suffix front (b'.' ∷ h))
        (or_true (eq_bytes (front ++ b'.' ∷ h) h) (is_on host hosts))))
Under-is_on host t (h ∷ hosts) u (Memᴰ.tail at) =
    let rest = Under-is_on host t hosts u at in
    rw rest (or_last (eq_bytes host h) (has_suffix host (b'.' ∷ h)))

is_on-Under :
    (host : Bytes) (hosts : List Bytes)
    → is_on host hosts ≡ true
    → (t : Bytes) × Memᴰ t hosts × Under host t
unfolding is_on
is_on-Under host [] h = let no_way : ⊥ = cc in elim no_way [ ]
is_on-Under host (t ∷ hosts) h = elim (Bool-cases (eq_bytes host t)) [
  | inl same ↦ (t, Memᴰ.head refl, inl (eq_bytes_sound host t same))
  | inr n1 ↦ elim (Bool-cases (has_suffix host (b'.' ∷ t))) [
    | inl suffix ↦ (t, Memᴰ.head refl, inr (suffix-EndsWith host (b'.' ∷ t) suffix))
    | inr n2 ↦
        let (u, at, under) = is_on-Under host hosts (rw n2 at (rw n1 at h)) in
        (u, Memᴰ.tail at, under)
  ]
]

is_on_iff :
    (host : Bytes)
    → (is_on host tracker_hosts ≡ true) ↔ ((t : Bytes) × Memᴰ t tracker_hosts × Under host t)
is_on_iff host =
    (is_on-Under host tracker_hosts, λ (t, at, under). Under-is_on host t tracker_hosts under at)

-- a byte that ends the host: a colon, a slash, a question mark or a number sign
abbrev pub is_delimiter : ℕ → Bool
is_delimiter c = c == b':' || (c == b'/' || (c == b'?' || c == b'#'))

abbrev pub AtDelimiter : Bytes → Type 0
AtDelimiter [] = Unit
AtDelimiter (c ∷ s) = is_delimiter c ≡ true

-- `host` is what stands before the first delimiter
abbrev pub IsHost : Bytes → Bytes → Type 0
IsHost host rest =
    All (λ c. is_delimiter c ≡ false) host
    × ((tail : Bytes) × (rest ≡ host ++ tail) × AtDelimiter tail)

host_of_delimiter : (c : ℕ) (rest : Bytes) → is_delimiter c ≡ true → host_of (c ∷ rest) ≡ []
unfolding host_of until
host_of_delimiter c rest h = elim (Bool-cases (ends_host c)) [
  | inl e ↦ rw e refl
  | inr n ↦ let colon : (c == b':') ≡ true = ground (arith, n, h) in rw n (rw colon refl)
]

host_of_plain :
    (c : ℕ) (rest : Bytes) → is_delimiter c ≡ false → host_of (c ∷ rest) ≡ c ∷ host_of rest
unfolding host_of until
host_of_plain c rest h =
    let n : ends_host c ≡ false = ground (arith, h) in
    let m : (c == b':') ≡ false = ground (arith, h) in rw n (rw m refl)

host_of-append :
    (host tail : Bytes)
    → All (λ c. is_delimiter c ≡ false) host
    → AtDelimiter tail
    → host_of (host ++ tail) ≡ host
unfolding host_of until
host_of-append [] [] _ t = refl
host_of-append [] (c ∷ tail) _ t = host_of_delimiter c tail t
host_of-append (c ∷ host) tail (n, h) t =
    host_of_plain c (host ++ tail) n ∙ ap (λ s. c ∷ s) (host_of-append host tail h t)

host_of-IsHost : (rest : Bytes) → IsHost (host_of rest) rest
unfolding host_of until
host_of-IsHost [] = (tt, ([], refl, tt))
host_of-IsHost (c ∷ rest) = elim (Bool-cases (is_delimiter c)) [
  | inl yes_d ↦ rw (host_of_delimiter c rest yes_d) (tt, (c ∷ rest, refl, yes_d))
  | inr no_d ↦
      let (plain, (tail, e, at)) = host_of-IsHost rest in
      rw (host_of_plain c rest no_d) ((no_d, plain), (tail, ap (λ s. c ∷ s) e, at))
]

-- the host before the first delimiter is on the tracker list, or a subdomain of a listed host
abbrev pub IsTracked : Bytes → Type 0
IsTracked rest =
    (host : Bytes) × (t : Bytes) × IsHost host rest × Memᴰ t tracker_hosts × Under host t

is_on-IsTracked : (rest : Bytes) → (is_on (host_of rest) tracker_hosts ≡ true) ↔ IsTracked rest
is_on-IsTracked rest = (
  λ on.
      let (t, at, under) = (is_on_iff (host_of rest)).0 on in
      (host_of rest, t, host_of-IsHost rest, at, under),
  λ (host, t, (plain, (tail, e, stop)), at, under).
      let same : host_of rest ≡ host = ap host_of e ∙ host_of-append host tail plain stop in
      (is_on_iff (host_of rest)).1 (t, at, rw same under),
)

-- For every address that begins, lowered, with "http://" or "https://", `url_hits_tracker_host`
-- succeeds exactly when what stands behind that prefix of the lowered address, up to the first colon, slash,
-- question mark or number sign, is a host of the tracker list or a subdomain of one. Of an address with
-- user information that is not its host.
pub url_hits_tracker_host_iff :
    (url rest : Bytes)
    → (map lower url ≡ codes "http://" ++ rest) ⊎ (map lower url ≡ codes "https://" ++ rest)
    → (url_hits_tracker_host url ≡ true) ↔ IsTracked rest
unfolding url_hits_tracker_host hits has_prefix
url_hits_tracker_host_iff url rest (inl e) = rw e (is_on-IsTracked rest)
url_hits_tracker_host_iff url rest (inr e) = rw e (is_on-IsTracked rest)
