-- ===== src/Mime/Rich/Runs.antt =====
-- internal/mail/mime/richspans.go: what every turn of the loop keeps.
use vayu_mail_mobile.Base.{
  is_nil, ℕ, ◌≤◌, ◌<◌, ◌≡◌, Bool, true, false, Option, none, some, List, [], ◌∷◌, ◌++◌, Bytes,
  codes, eq_bytes, length, length-append, ltb, ltb→lt, trim_space, Bool-cases, inl, inr, All,
  All-append, refl, arith,
}
use vayu_mail_mobile.Mime.Sanitize.{
  RichEvent, rich_text, rich_block_open, rich_block_close, rich_link_open, rich_link_close,
  rich_style_open, rich_style_close, rich_break, rich_image,
}
use vayu_mail_mobile.Mime.Rich.{
  RichRun, RichPara, max_rich_paras, SpanState, apply, append, Fold, flushed, flush, opened, put,
  styled, break_run, plain, bullet, text_of, put_text, open_para, open_block, alt_or, step, steps,
  start_fold, rich_paragraphs,
}

-- the links that the events open
abbrev pub Opens : (Bytes → Type 0) → RichEvent → Type 0
Opens L (rich_link_open href) = L href
Opens L _ = Unit

-- `Good` holds of a new paragraph and survives a run whose link is `L`
module _ (Good : RichPara → Type 0) (L : Bytes → Type 0)
    (fresh : (tag : Bytes) (depth : ℕ) → Good (record { tag = tag; depth = depth; runs = [] }))
    (add : (p : RichPara) (r : RichRun) → Good p → L r.link → Good (append p r))
    (no_link : L []) where
  abbrev pub Shown : RichPara → Type 0
  Shown p = Good p × (is_nil p.runs ≡ false)

  abbrev Current : Option RichPara → Type 0
  Current none = Unit
  Current (some p) = Good p

  abbrev Inv : Fold → Type 0
  Inv f = (length f.paras ≤ max_rich_paras) × All Shown f.paras × Current f.cur × L f.st.link

  flushed-Shown :
      (cur : Option RichPara) (paras : List RichPara)
      → length paras ≤ max_rich_paras
      → All Shown paras
      → Current cur
      → (length (flushed cur paras) ≤ max_rich_paras) × All Shown (flushed cur paras)
  unfolding flushed
  flushed-Shown none paras n h c = (n, h)
  flushed-Shown (some p) paras n h c = elim (Bool-cases (is_nil p.runs)) [
    | inl empty ↦ rw empty (n, h)
    | inr full ↦ rw full (elim (Bool-cases (ltb (length paras) max_rich_paras)) [
      | inl room ↦
          let below : length paras < max_rich_paras = ltb→lt (length paras) max_rich_paras room in
          let fits : length (paras ++ p ∷ []) ≤ max_rich_paras =
            omega (arith, length-append paras (p ∷ []), below) in
          rw room (fits, All-append Shown paras (p ∷ []) h ((c, full), tt))
      | inr capped ↦ rw capped (n, h)
    ])
  ]

  flush-Inv : (f : Fold) → Inv f → Inv (flush f)
  unfolding flush
  flush-Inv f (n, h, c, l) =
      let (fits, shown) = flushed-Shown f.cur f.paras n h c in (fits, shown, tt, l)

  opened-Good : (cur : Option RichPara) → Current cur → Good (opened cur)
  opened-Good none c = fresh [] 0
  opened-Good (some p) c = c

  put-Inv : (r : RichRun) (f : Fold) → L r.link → Inv f → Inv (put r f)
  unfolding put
  put-Inv r f link (n, h, c, l) = (n, h, add (opened f.cur) r (opened-Good f.cur c) link, l)

  put_text-Inv : (pre : Bool) (text : Bytes) (f : Fold) → Inv f → Inv (put_text pre text f)
  unfolding put_text
  put_text-Inv true [] f inv = put-Inv (styled f.st []) f inv.3 inv
  put_text-Inv false [] f inv = inv
  put_text-Inv pre (c ∷ s) f inv = put-Inv (styled f.st (c ∷ s)) f inv.3 inv

  open_para-Inv : (tag : Bytes) (depth : ℕ) (f : Fold) → Inv f → Inv (open_para tag depth f)
  unfolding open_para
  open_para-Inv tag depth f (n, h, c, l) = elim (Bool-cases f.pending_bullet) [
    | inl bulleted ↦ rw bulleted (
        put-Inv bullet
          (record f {
            cur = some (record { tag = tag; depth = depth; runs = [] });
            pending_bullet = false;
          })
          no_link (n, h, fresh tag depth, l))
    | inr bare ↦ rw bare (n, h, fresh tag depth, l)
  ]

  open_block-Inv : (tag : Bytes) (depth : ℕ) (f : Fold) → Inv f → Inv (open_block tag depth f)
  unfolding open_block
  open_block-Inv tag depth f inv = elim (Bool-cases (eq_bytes tag (codes "br"))) [
    | inl br ↦ rw br inv
    | inr n1 ↦ rw n1 (elim (Bool-cases (eq_bytes tag (codes "li"))) [
      | inl item ↦ rw item (open_para-Inv tag depth (record f { pending_bullet = true }) inv)
      | inr n2 ↦ rw n2 (elim (Bool-cases (eq_bytes tag (codes "pre"))) [
        | inl pre ↦ rw pre (open_para-Inv tag depth (record f { in_pre = true }) inv)
        | inr n3 ↦ rw n3 (open_para-Inv tag depth f inv)
      ])
    ])
  ]

  -- a style event leaves the link alone
  apply_link : (s : SpanState) (style : Bytes) (on : Bool) → (apply s style on).link ≡ s.link
  unfolding apply
  apply_link s style on = elim (Bool-cases (eq_bytes style (codes "b"))) [
    | inl b ↦ rw b refl
    | inr n1 ↦ rw n1 (elim (Bool-cases (eq_bytes style (codes "i"))) [
      | inl i ↦ rw i refl
      | inr n2 ↦ rw n2 (elim (Bool-cases (eq_bytes style (codes "u"))) [
        | inl u ↦ rw u refl
        | inr n3 ↦ rw n3 (elim (Bool-cases (eq_bytes style (codes "code"))) [
          | inl code ↦ rw code refl
          | inr n4 ↦ rw n4 refl
        ])
      ])
    ])
  ]

  styled-Inv :
      (f : Fold) (style : Bytes) (on : Bool) → Inv f → Inv (record f { st = apply f.st style on })
  styled-Inv f style on (n, h, c, l) = (n, h, c, rw (apply_link f.st style on) l)

  step-Inv : (f : Fold) (ev : RichEvent) → Opens L ev → Inv f → Inv (step f ev)
  unfolding step
  step-Inv f (rich_text text) _ inv = put_text-Inv f.in_pre (text_of f text) f inv
  step-Inv f (rich_block_open tag depth) _ inv =
      open_block-Inv tag depth (flush f) (flush-Inv f inv)
  step-Inv f (rich_block_close tag depth) _ inv = elim (Bool-cases (eq_bytes tag (codes "pre"))) [
    | inl pre ↦ rw pre (flush-Inv f inv)
    | inr other ↦ rw other (flush-Inv f inv)
  ]
  step-Inv f (rich_style_open style) _ inv = styled-Inv f style true inv
  step-Inv f (rich_style_close style) _ inv = styled-Inv f style false inv
  step-Inv f (rich_link_open href) link (n, h, c, l) = (n, h, c, link)
  step-Inv f rich_link_close _ (n, h, c, l) = (n, h, c, no_link)
  step-Inv f rich_break _ inv = put-Inv (break_run f.st) f no_link inv
  step-Inv f (rich_image alt) _ inv =
      put-Inv (plain (codes "[image: " ++ alt_or (trim_space alt) ++ codes "]") false true) f
        no_link inv

  steps-Inv :
      (events : List RichEvent) (f : Fold) → All (Opens L) events → Inv f → Inv (steps events f)
  unfolding steps
  steps-Inv [] f _ inv = inv
  steps-Inv (ev ∷ events) f (o, os) inv = steps-Inv events (step f ev) os (step-Inv f ev o inv)

  pub rich_paragraphs-Shown :
      (events : List RichEvent)
      → All (Opens L) events
      → (length (rich_paragraphs events) ≤ max_rich_paras) × All Shown (rich_paragraphs events)
  unfolding rich_paragraphs
  rich_paragraphs-Shown events os =
      let start : Inv start_fold = (omega arith, tt, tt, no_link) in
      let inv = flush-Inv (steps events start_fold) (steps-Inv events start_fold os start) in
      (inv.0, inv.1)
