-- ===== src/Chat/Manager/Incoming/Cooldown.antt =====
-- internal/chat/manager_ops.go, resyncOnce: how often the private key is fetched again.
use vayu_mail_mobile.Base.{
  ℕ, suc, ◌+◌, ◌≤◌, ◌≡◌, refl, false, Option, none, some, List, [], ◌∷◌, ◌++◌, ltb, length,
  not_ltb→le, Bool-cases, inl, inr,
}
use vayu_mail_mobile.Chat.Events.{Event}
use vayu_mail_mobile.Chat.Stream.{StreamEvent}
use vayu_mail_mobile.Chat.Manager.{Fetch, Config, Manager, emit, event_capacity}
use vayu_mail_mobile.Chat.Manager.Incoming.{
  wait_after, cools_down, resync_with, resync_once, fetched, handle_all,
}
use vayu_mail_mobile.Chat.Manager.Incoming.Keeps.{handle_all-Good}

-- each re-fetch begins when the wait after the one before is over, and `next` is when the wait after the
-- last is over
abbrev pub Spaced : List Fetch → Option ℕ → Type 0
Spaced [] next = next ≡ none
Spaced (f ∷ []) next = next ≡ some (f.ended + wait_after f.succeeded)
Spaced (f ∷ g ∷ fs) next = (f.ended + wait_after f.succeeded ≤ g.began) × Spaced (g ∷ fs) next

Spaced-append :
    (fs : List Fetch) (f : Fetch) (next : Option ℕ)
    → Spaced fs next
    → ((t : ℕ) → next ≡ some t → t ≤ f.began)
    → Spaced (fs ++ f ∷ []) (some (f.ended + wait_after f.succeeded))
Spaced-append [] f next h late = refl
Spaced-append (g ∷ []) f next h late = (late _ h, refl)
Spaced-append (g ∷ k ∷ fs) f next (a, h) late = (a, Spaced-append (k ∷ fs) f next h late)

not_cooling : (now : ℕ) (o : Option ℕ) → cools_down now o ≡ false → (t : ℕ) → o ≡ some t → t ≤ now
not_cooling now none h t e = cc
not_cooling now (some s) h t e = let g : s ≡ t = cc in not_ltb→le now t (rw g at h)

module _ {K : Type 0} (C : Config K) where
  abbrev pub SpacedIn : Manager K → Type 0
  SpacedIn m = Spaced m.fetches m.next_resync

  emit-Spaced : (ev : Event) (m : Manager K) → SpacedIn m → SpacedIn (emit C ev m)
  unfolding emit
  emit-Spaced ev m h = elim (Bool-cases (ltb (length m.events) event_capacity)) [
    | inl room ↦ rw room h
    | inr full ↦ rw full h
  ]

  fetched-Spaced :
      (now : ℕ) (o : Option K) (m : Manager K)
      → SpacedIn m
      → ((t : ℕ) → m.next_resync ≡ some t → t ≤ now)
      → SpacedIn (fetched C now o m).1
  fetched-Spaced now none m h late = Spaced-append m.fetches _ m.next_resync h late
  fetched-Spaced now (some keys) m h late = Spaced-append m.fetches _ m.next_resync h late

  resync_with-Spaced :
      (f : Option (ℕ → K → Option K)) (m : Manager K) → SpacedIn m → SpacedIn (resync_with C f m).1
  unfolding resync_with
  resync_with-Spaced none m h = h
  resync_with-Spaced (some fetch) m h =
      elim (Bool-cases (cools_down (C.clock m.ticks) m.next_resync)) [
        | inl early ↦ rw early h
        | inr late ↦ rw late (
            fetched-Spaced (C.clock m.ticks) _ (record m { ticks = suc m.ticks }) h
              (not_cooling (C.clock m.ticks) m.next_resync late))
      ]

  -- Whatever comes in over the stream, and whatever the clock, the keyring and the server answer, a key
  -- re-fetch begins at least thirty seconds after the end of a successful one before it and at least
  -- five seconds after the end of a failed one.
  pub handle_all-Spaced :
      (evs : List (StreamEvent (Option ℕ))) (m : Manager K)
      → SpacedIn m
      → SpacedIn (handle_all C evs m)
  unfolding resync_once
  handle_all-Spaced = handle_all-Good C SpacedIn emit-Spaced (resync_with-Spaced C.resync_key)
