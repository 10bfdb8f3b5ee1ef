-- ===== src/Smtpsend/Bcc/Fields.antt =====
-- `stripBcc` against the header fields of RFC 5322: a line with the folded lines behind it.
use vayu_mail_mobile.Base.{
  ◌≡◌, ◌<◌, some, Bool, true, false, not, ◌&&◌, List, [], ◌∷◌, ◌++◌, Bytes, eq_bytes, lower, length,
  keep, if◌then◌else◌, All, arith, Bool-cases, inl, inr, refl, ap, ◌∙◌,
}
use vayu_mail_mobile.Smtpsend.Bcc.{
  is_bcc, is_folded, is_empty, strip_step, written, any_too_long, put_line, strip_bcc, max_line,
}
use vayu_mail_mobile.Base.Bufio.{
  raw_lines, write_lines, lines, lines-write_lines, IsLine, IsLine-lines,
}

-- the lines before the first empty one, and the others
abbrev pub header_of : List Bytes → List Bytes
header_of [] = []
header_of (l ∷ ls) = let rest = header_of ls in if is_empty l then [] else l ∷ rest

abbrev pub body_of : List Bytes → List Bytes
body_of [] = []
body_of (l ∷ ls) = let rest = body_of ls in if is_empty l then l ∷ ls else rest

-- the first line of a field
abbrev pub first_line : (Bytes → Bool) → List Bytes → Bool
first_line p [] = false
first_line p (l ∷ ls) = p l

-- a line in front of fields: it takes the first one in, if that begins with a folded line
pub glue : Bytes → List (List Bytes) → List (List Bytes)
glue l [] = (l ∷ []) ∷ []
glue l (f ∷ fs) = if first_line is_folded f then (l ∷ f) ∷ fs else (l ∷ []) ∷ f ∷ fs

pub fields : List Bytes → List (List Bytes)
fields [] = []
fields (l ∷ ls) = glue l (fields ls)

abbrev pub join_fields : List (List Bytes) → List Bytes
join_fields [] = []
join_fields (f ∷ fs) = f ++ join_fields fs

-- a Bcc field
abbrev pub is_bcc_field : List Bytes → Bool
is_bcc_field = first_line is_bcc

abbrev other_fields : List (List Bytes) → List (List Bytes)
other_fields = keep (λ f. not (is_bcc_field f))

abbrev drop_folded : List (List Bytes) → List (List Bytes)
drop_folded [] = []
drop_folded (f ∷ fs) = if first_line is_folded f then fs else f ∷ fs

-- what the loop still writes of the fields when it is skipping one
abbrev remaining : Bool → List (List Bytes) → List Bytes
remaining true fs = join_fields (other_fields (drop_folded fs))
remaining false fs = join_fields (other_fields fs)

folded_not_bcc : (l : Bytes) → is_folded l ≡ true → is_bcc l ≡ false
unfolding is_bcc eq_bytes lower
folded_not_bcc [] h = cc
folded_not_bcc (c ∷ l) h = ground arith

glue_skipped :
    (l : Bytes) (fs : List (List Bytes))
    → is_folded l ≡ true
    → remaining true (glue l fs) ≡ remaining true fs
unfolding glue
glue_skipped l [] h = ground arith
glue_skipped l (f ∷ fs) h = ground arith

glue_bcc :
    (l : Bytes) (k : Bool) (fs : List (List Bytes))
    → is_bcc l ≡ true
    → (k && is_folded l) ≡ false
    → remaining k (glue l fs) ≡ remaining true fs
unfolding glue
glue_bcc l k [] b h = ground arith
glue_bcc l k (f ∷ fs) b h = ground arith

glue_other :
    (l : Bytes) (k : Bool) (fs : List (List Bytes))
    → is_bcc l ≡ false
    → (k && is_folded l) ≡ false
    → remaining k (glue l fs) ≡ l ∷ remaining false fs
unfolding glue
glue_other l k [] b h = ground arith
glue_other l k ([] ∷ fs) b h = ground arith
glue_other l k ((m ∷ f) ∷ fs) b h = ground (arith, folded_not_bcc m)

written-body : (ls : List Bytes) (k : Bool) → written ls false k ≡ ls
unfolding written
written-body [] k = refl
written-body (l ∷ ls) k = ap (λ t. l ∷ t) (written-body ls k)

step_header :
    (l : Bytes) (ls : List Bytes) (k : Bool)
    → is_empty l ≡ false
    → ((j : Bool) → written ls true j ≡ remaining j (fields (header_of ls)) ++ body_of ls)
    → written (l ∷ ls) true k ≡ remaining k (glue l (fields (header_of ls))) ++ body_of ls
unfolding written
step_header l ls k e ih =
    let fs = fields (header_of ls) in
    elim (Bool-cases (k && is_folded l)) [
      | inl skip ↦ skipped k (is_folded l) refl skip
      | inr stay ↦ elim (Bool-cases (is_bcc l)) [
        | inl bcc ↦ rw (e, stay, bcc) (ih true ∙ rw (glue_bcc l k fs bcc stay))
        | inr other ↦
            rw (e, stay, other) (ap (λ t. l ∷ t) (ih false) ∙ rw (glue_other l k fs other stay))
      ]
    ]
  where
    skipped :
        (k' f : Bool)
        → is_folded l ≡ f
        → (k' && f) ≡ true
        → written (l ∷ ls) true k' ≡ remaining k' (glue l (fields (header_of ls))) ++ body_of ls
    skipped true true p q = rw (e, p) (ih true ∙ rw (glue_skipped l (fields (header_of ls)) p))
    skipped true false p q = cc
    skipped false f p q = cc

written-fields :
    (ls : List Bytes) (k : Bool)
    → written ls true k ≡ remaining k (fields (header_of ls)) ++ body_of ls
unfolding fields
written-fields [] k = unfold written in ground arith
written-fields ([] ∷ ls) k = unfold written in ground (arith, written-body ls false)
written-fields ((c ∷ l) ∷ ls) k = step_header (c ∷ l) ls k refl (λ j. written-fields ls j)

IsLine-put :
    (b : Bool) (l : Bytes) (ls : List Bytes)
    → IsLine l
    → All IsLine ls
    → All IsLine (put_line b l ls)
IsLine-put true l ls x h = (x, h)
IsLine-put false l ls x h = h

IsLine-written :
    (ls : List Bytes) (in_header skipping : Bool)
    → All IsLine ls
    → All IsLine (written ls in_header skipping)
unfolding written
IsLine-written [] in_header skipping h = tt
IsLine-written (l ∷ ls) in_header skipping (x, h) =
    let t = strip_step l in_header skipping in IsLine-put t.0 l _ x (IsLine-written ls t.1 t.2 h)

All-fit : (ls : List Bytes) → All (λ l. length l < max_line) ls → any_too_long ls ≡ false
unfolding any_too_long
All-fit [] k = refl
All-fit (l ∷ ls) (x, k) = ground (arith, All-fit ls k)

-- On a message whose lines are all shorter than a mebibyte `stripBcc` succeeds. What it writes, read back
-- as lines, is the stored header without its Bcc fields, whole with their folded lines, every other
-- field in its place, and then the body line by line as it was.
pub strip_bcc-fields :
    (raw : Bytes)
    → All (λ l. length l < max_line) (raw_lines raw)
    → (wire : Bytes) × (strip_bcc raw ≡ some wire)
      × (lines wire
          ≡ join_fields (keep (λ f. not (is_bcc_field f)) (fields (header_of (lines raw))))
            ++ body_of (lines raw))
unfolding strip_bcc
strip_bcc-fields raw h =
    let ls = lines raw in
    let out = written ls true false in
    (
      write_lines out,
      rw (All-fit (raw_lines raw) h),
      lines-write_lines out (IsLine-written ls true false (IsLine-lines raw))
          ∙ written-fields ls false,
    )
