-- ===== src/Avatarimg/Tests.antt =====
-- The picture cache at concrete inputs.
use vayu_mail_mobile.Base.{
  ◌≡◌, refl, Option, some, List, [], ◌∷◌, Bytes, Memᴰ, codes, lower, trim_space, eq_bytes,
}
use vayu_mail_mobile.Avatarimg.{
  Move, asked, allow, new_cache, do_move, do_moves, image, last_at, normal_key, is_in,
  set_allowed_domains, entry_of, put_entry, forget_misses,
}
use vayu_mail_mobile.Avatarimg.Privacy.{Asked, fetches-Asked}
use vayu_mail_mobile.Avatarimg.OneShot.{OneEach, in_flight-OneEach}

-- a picture is its bytes
abbrev picture : Bytes → Option Bytes
picture raw = some raw

-- a host that is refused at first, and asked once it is allowed
abbrev visits : List Move
visits =
    asked (codes "A@b.c") 1
    ∷ allow (codes "b.c" ∷ [])
    ∷ asked (codes "a@b.c") 2
    ∷ asked (codes "a@b.c") 3
    ∷ asked (codes "x@y.z") 4
    ∷ []

requested : (do_moves picture visits new_cache).fetches ≡ (codes "a@b.c", codes "b.c") ∷ []
unfolding do_moves do_move image last_at normal_key is_in set_allowed_domains entry_of put_entry
    forget_misses lower trim_space eq_bytes
requested = refl

fetches-Asked_example : Asked picture visits (codes "a@b.c", codes "b.c")
fetches-Asked_example =
    fetches-Asked picture visits (codes "a@b.c") (codes "b.c") (rw requested (Memᴰ.head refl))

in_flight-OneEach_example : OneEach (do_moves picture visits new_cache)
in_flight-OneEach_example = in_flight-OneEach picture visits
