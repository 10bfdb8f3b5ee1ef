-- ===== src/Mime/Render/Hidden.antt =====
-- internal/mail/mime/render.go: what stands inside a skipped element.
use vayu_mail_mobile.Base.{
  ℕ, suc, ◌+◌, ◌-◌, ◌≡◌, refl, sym, ap, ◌∙◌, All, Bool, true, false, not, List, [], ◌∷◌, ◌++◌,
  Bytes, eq_bytes, eq_bytes_sound, ltb, Bool-cases, inl, inr, arith,
}
use vayu_mail_mobile.Mime.Tags.{has_name}
use vayu_mail_mobile.Mime.Render.{
  block_tags, skip_tags, Token, start_tag, self_closing_tag, end_tag, text_token, other_token,
  Rendering, write_break, render_token, render_tokens, collapse_blank_lines, text_of_tokens,
}

abbrev is_skipped : Bytes → Bool
is_skipped name = has_name name skip_tags

-- a token that neither opens nor closes a skipped element
unfoldable pub is_plain : Token → Bool
is_plain (start_tag name) = not (is_skipped name)
is_plain (end_tag name) = not (is_skipped name)
is_plain _ = true

-- the content of an element: plain tokens, and skipped elements that are closed
pub data Hidden : List Token → Type 0 where
  nothing : Hidden []
  beside : (t : Token) (ts : List Token) → is_plain t ≡ true → Hidden ts → Hidden (t ∷ ts)
  element :
      (a b : Bytes) (xs ys : List Token)
      → is_skipped a ≡ true
      → is_skipped b ≡ true
      → Hidden xs
      → Hidden ys
      → Hidden (start_tag a ∷ (xs ++ end_tag b ∷ ys))

abbrev at_depth : Bytes → ℕ → Rendering
at_depth written depth = record { written = written; skip_depth = depth }

render_tokens-append :
    (xs ys : List Token) (r : Rendering)
    → render_tokens (xs ++ ys) r ≡ render_tokens ys (render_tokens xs r)
unfolding render_tokens
render_tokens-append [] ys r = refl
render_tokens-append (x ∷ xs) ys r = render_tokens-append xs ys (render_token x r)

has_name-All :
    (P : Bytes → Type 0) (names : List Bytes) (name : Bytes)
    → All P names
    → has_name name names ≡ true
    → P name
unfolding has_name
has_name-All P [] name all h = cc
has_name-All P (t ∷ names) name (here, there) h = elim (Bool-cases (eq_bytes name t)) [
  | inl same ↦ rw (eq_bytes_sound name t same) here
  | inr other ↦ has_name-All P names name there (rw other at h)
]

-- no skipped element is one that breaks the line
skipped_no_block : (name : Bytes) → is_skipped name ≡ true → has_name name block_tags ≡ false
unfolding has_name eq_bytes
skipped_no_block name h =
    has_name-All (λ t. has_name t block_tags ≡ false) skip_tags name
      (refl, (refl, (refl, (refl, (refl, (refl, (refl, (refl, (refl, tt))))))))) h

write_break_inside :
    (name w : Bytes) (d : ℕ) → write_break name (at_depth w (suc d)) ≡ at_depth w (suc d)
unfolding write_break
write_break_inside name w d = ground arith

open_skipped :
    (a w : Bytes) (d : ℕ)
    → is_skipped a ≡ true
    → render_token (start_tag a) (at_depth w d) ≡ at_depth w (suc d)
unfolding render_token
open_skipped a w d h = let e : d + 1 ≡ suc d = omega arith in rw (h, e) (write_break_inside a w d)

close_skipped :
    (b w : Bytes) (d : ℕ)
    → is_skipped b ≡ true
    → render_token (end_tag b) (at_depth w (suc d)) ≡ at_depth w d
unfolding render_token write_break
close_skipped b w d h =
    let e : suc d - 1 ≡ d = omega arith in
    let f : ltb 0 (suc d) ≡ true = ground arith in rw (h, skipped_no_block b h, f, e) refl

plain_inside :
    (t : Token) (w : Bytes) (d : ℕ)
    → is_plain t ≡ true
    → render_token t (at_depth w (suc d)) ≡ at_depth w (suc d)
unfolding render_token is_plain
plain_inside (start_tag name) w d h =
    let e : is_skipped name ≡ false = ground arith in rw e (write_break_inside name w d)
plain_inside (self_closing_tag name) w d h = write_break_inside name w d
plain_inside (end_tag name) w d h =
    let e : is_skipped name ≡ false = ground arith in rw e (write_break_inside name w d)
plain_inside (text_token text) w d h = ground arith
plain_inside other_token w d h = refl

-- through an element whose content changes nothing
around :
    (xs ys : List Token) (a b w : Bytes) (d : ℕ)
    → is_skipped a ≡ true
    → is_skipped b ≡ true
    → render_tokens xs (at_depth w (suc d)) ≡ at_depth w (suc d)
    → render_tokens (start_tag a ∷ (xs ++ end_tag b ∷ ys)) (at_depth w d)
      ≡ render_tokens ys (at_depth w d)
unfolding render_tokens
around xs ys a b w d sa sb same =
    ap (λ r. render_tokens (xs ++ end_tag b ∷ ys) r) (open_skipped a w d sa)
    ∙ render_tokens-append xs (end_tag b ∷ ys) (at_depth w (suc d))
    ∙ ap (λ r. render_tokens (end_tag b ∷ ys) r) same
    ∙ ap (λ r. render_tokens ys r) (close_skipped b w d sb)

content_inside :
    (ts : List Token)
    → Hidden ts
    → (w : Bytes) (d : ℕ) → render_tokens ts (at_depth w (suc d)) ≡ at_depth w (suc d)
unfolding render_tokens
content_inside _ nothing w d = refl
content_inside _ (beside t ts p h) w d =
    ap (λ r. render_tokens ts r) (plain_inside t w d p) ∙ content_inside ts h w d
content_inside _ (element a b xs ys sa sb hx hy) w d =
    around xs ys a b w (suc d) sa sb (content_inside xs hx w (suc d)) ∙ content_inside ys hy w d

-- For every document, what stands between the tags of a skipped element, such as script or style, and the
-- tags themselves leave the text that is shown as it is without them. Where the end tag is missing, the
-- text is that of what stands before the start tag, so that nothing that follows it is shown.
pub text_of_tokens-Hidden :
    (before hidden after : List Token) (a b : Bytes)
    → is_skipped a ≡ true
    → is_skipped b ≡ true
    → Hidden hidden
    → (text_of_tokens (before ++ start_tag a ∷ (hidden ++ end_tag b ∷ after))
        ≡ text_of_tokens (before ++ after))
      × (text_of_tokens (before ++ start_tag a ∷ hidden) ≡ text_of_tokens before)
unfolding text_of_tokens render_tokens
text_of_tokens-Hidden before hidden after a b sa sb h =
    let start = at_depth [] 0 in
    let r = render_tokens before start in
    let inside = content_inside hidden h r.written r.skip_depth in
    (
      ap (λ t. collapse_blank_lines t.written)
          (render_tokens-append before (start_tag a ∷ (hidden ++ end_tag b ∷ after)) start
            ∙ around hidden after a b r.written r.skip_depth sa sb inside
            ∙ sym (render_tokens-append before after start)),
      ap (λ t. collapse_blank_lines t.written)
            (render_tokens-append before (start_tag a ∷ hidden) start)
          ∙ ap (λ t. collapse_blank_lines (render_tokens hidden t).written)
              (open_skipped a r.written r.skip_depth sa)
          ∙ ap (λ t. collapse_blank_lines t.written) inside,
    )
