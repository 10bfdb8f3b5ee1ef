-- ===== src/Mime/Rich/Links.antt =====
-- internal/mail/mime/richspans.go: the paragraphs, and those of a sanitised document.
use vayu_mail_mobile.Base.{
  is_nil, ◌≤◌, ◌≡◌, ◌⊎◌, refl, Bool, false, Option, List, [], ◌∷◌, Bytes, length, All, Bool-cases,
  inl, inr,
}
use vayu_mail_mobile.Mime.Sanitize.{
  Node, RichEvent, rich_text, rich_block_open, rich_block_close, rich_link_open, rich_link_close,
  rich_style_open, rich_style_close, rich_break, rich_image, sanitize_html,
}
use vayu_mail_mobile.Mime.Sanitize.Links.{IsLink}
use vayu_mail_mobile.Mime.Sanitize.Safe.{IsInert, sanitize_html-IsInert}
use vayu_mail_mobile.Mime.Rich.{RichRun, same_style, max_rich_paras, append_run, rich_paragraphs}
use vayu_mail_mobile.Mime.Rich.Runs.{Opens, rich_paragraphs-Shown}

-- no two neighbours have the same style
abbrev pub Distinct : List RichRun → Type 0
Distinct [] = Unit
Distinct (x ∷ []) = Unit
Distinct (x ∷ y ∷ runs) = (same_style x y ≡ false) × Distinct (y ∷ runs)

append_run-Distinct :
    (runs : List RichRun) (r : RichRun) → Distinct runs → Distinct (append_run runs r)
unfolding append_run same_style
append_run-Distinct [] r h = tt
append_run-Distinct (x ∷ []) r h = elim (Bool-cases (same_style x r)) [
  | inl same ↦ rw same tt
  | inr differs ↦ rw differs (differs, tt)
]
append_run-Distinct (x ∷ y ∷ []) r (d, h) = elim (Bool-cases (same_style y r)) [
  | inl same ↦ rw same (d, tt)
  | inr differs ↦ rw differs (d, (differs, tt))
]
append_run-Distinct (x ∷ y ∷ z ∷ runs) r (d, h) = (d, append_run-Distinct (y ∷ z ∷ runs) r h)

free_event : (ev : RichEvent) → Opens (λ _. Unit) ev
free_event (rich_text _) = tt
free_event (rich_block_open _ _) = tt
free_event (rich_block_close _ _) = tt
free_event rich_link_close = tt
free_event (rich_style_open _) = tt
free_event (rich_style_close _) = tt
free_event rich_break = tt
free_event (rich_image _) = tt
free_event (rich_link_open _) = tt

free_events : (events : List RichEvent) → All (Opens (λ _. Unit)) events
free_events [] = tt
free_events (ev ∷ events) = (free_event ev, free_events events)

-- For every list of events, `rich_paragraphs` returns at most 5,000 paragraphs; each has a run, and
-- no two neighbouring runs of a paragraph have the same style.
rich_paragraphs-Distinct :
    (events : List RichEvent)
    → (length (rich_paragraphs events) ≤ max_rich_paras)
      × All (λ p. Distinct p.runs × (is_nil p.runs ≡ false)) (rich_paragraphs events)
rich_paragraphs-Distinct events =
    rich_paragraphs-Shown (λ p. Distinct p.runs) (λ _. Unit) (λ tag depth. tt)
      (λ p r h _. append_run-Distinct p.runs r h) tt events (free_events events)

-- every link of the runs is empty or has the property
abbrev pub Linked : (Bytes → Type 0) → List RichRun → Type 0
Linked L runs = All (λ r. (r.link ≡ []) ⊎ L r.link) runs

append_run-Linked :
    (L : Bytes → Type 0) (runs : List RichRun) (r : RichRun)
    → Linked L runs
    → (r.link ≡ []) ⊎ L r.link
    → Linked L (append_run runs r)
unfolding append_run
append_run-Linked L [] r h l = (l, tt)
append_run-Linked L (x ∷ []) r (k, _) l = elim (Bool-cases (same_style x r)) [
  | inl same ↦ rw same (k, tt)
  | inr differs ↦ rw differs (k, (l, tt))
]
append_run-Linked L (x ∷ y ∷ runs) r (k, h) l = (k, append_run-Linked L (y ∷ runs) r h l)

inert_event : (ev : RichEvent) → IsInert ev → Opens (λ href. (href ≡ []) ⊎ IsLink href) ev
inert_event (rich_text _) _ = tt
inert_event (rich_block_open _ _) _ = tt
inert_event (rich_block_close _ _) _ = tt
inert_event rich_link_close _ = tt
inert_event (rich_style_open _) _ = tt
inert_event (rich_style_close _) _ = tt
inert_event rich_break _ = tt
inert_event (rich_image _) _ = tt
inert_event (rich_link_open href) i = inr i

inert-Opens :
    (events : List RichEvent)
    → All IsInert events
    → All (Opens (λ href. (href ≡ []) ⊎ IsLink href)) events
inert-Opens [] _ = tt
inert-Opens (ev ∷ events) (i, is) = (inert_event ev i, inert-Opens events is)

-- For every text and whatever document the HTML parser makes of it, the paragraphs of the sanitised
-- text are at most 5,000, each has a run, and the link of each run is empty or begins with "https:"
-- or "mailto:", letter case aside.
pub rich_paragraphs-Linked :
    (parses : Bytes → Bool) (parse : Bytes → Option Node) (src : Bytes)
    → (length (rich_paragraphs (sanitize_html parses parse src)) ≤ max_rich_paras)
      × All
          (λ p. Linked IsLink p.runs × (is_nil p.runs ≡ false))
          (rich_paragraphs (sanitize_html parses parse src))
rich_paragraphs-Linked parses parse src =
    rich_paragraphs-Shown (λ p. Linked IsLink p.runs) (λ href. (href ≡ []) ⊎ IsLink href)
      (λ tag depth. tt) (λ p r h l. append_run-Linked IsLink p.runs r h l) (inl refl)
      (sanitize_html parses parse src)
      (inert-Opens (sanitize_html parses parse src) (sanitize_html-IsInert parses parse src))
