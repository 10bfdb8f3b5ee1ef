-- ===== src/Mime/Rich.antt =====
-- internal/mail/mime/richspans.go: events become paragraphs of styled runs. Text is valid UTF-8, as
-- its bytes; the counters of open styles never fall below zero, so they are natural numbers.
pub mod Runs
pub mod Links
use vayu_mail_mobile.Mime.Collapse.{collapse_space}
use vayu_mail_mobile.Base.{
  is_nil, eq_bool, ℕ, ◌+◌, ◌-◌, Bool, true, false, not, ◌&&◌, ◌||◌, Option, none, some, List, [],
  ◌∷◌, ◌++◌, Bytes, codes, eq_bytes, trim_left, trim_space, length, ltb, ◌==◌, if◌then◌else◌,
}
use vayu_mail_mobile.Mime.Sanitize.{
  RichEvent, rich_text, rich_block_open, rich_block_close, rich_link_open, rich_link_close,
  rich_style_open, rich_style_close, rich_break, rich_image,
}

pub record RichRun : Type 0 where
  pub text : Bytes
  pub bold : Bool
  pub italic : Bool
  pub underline : Bool
  pub code_font : Bool
  pub link : Bytes

unfoldable pub same_style : RichRun → RichRun → Bool
same_style r o =
    eq_bool r.bold o.bold
    && eq_bool r.italic o.italic
    && eq_bool r.underline o.underline
    && eq_bool r.code_font o.code_font
    && eq_bytes r.link o.link

pub record RichPara : Type 0 where
  pub tag : Bytes
  pub depth : ℕ
  pub runs : List RichRun

abbrev pub max_rich_paras : ℕ
max_rich_paras = 5000

pub record SpanState : Type 0 where
  pub bold : ℕ
  pub italic : ℕ
  pub under : ℕ
  pub code_depth : ℕ
  pub link : Bytes

abbrev pub moved : Bool → ℕ → ℕ
moved true n = n + 1
moved false n = n - 1

unfoldable pub apply : SpanState → Bytes → Bool → SpanState
apply s style on =
    if eq_bytes style (codes "b")
    then record s { bold = moved on s.bold }
    else if eq_bytes style (codes "i")
    then record s { italic = moved on s.italic }
    else if eq_bytes style (codes "u")
    then record s { under = moved on s.under }
    else if eq_bytes style (codes "code")
    then record s { code_depth = moved on s.code_depth }
    else s

-- RichPara.append
unfoldable pub append_run : List RichRun → RichRun → List RichRun
append_run [] r = r ∷ []
append_run (x ∷ []) r =
    if same_style x r then record x { text = x.text ++ r.text } ∷ [] else x ∷ r ∷ []
append_run (x ∷ y ∷ runs) r = x ∷ append_run (y ∷ runs) r

abbrev pub append : RichPara → RichRun → RichPara
append p r = record p { runs = append_run p.runs r }

-- the variables of RichParagraphs
pub record Fold : Type 0 where
  pub paras : List RichPara
  pub cur : Option RichPara
  pub st : SpanState
  pub pending_bullet : Bool
  pub in_pre : Bool

unfoldable pub flushed : Option RichPara → List RichPara → List RichPara
flushed none paras = paras
flushed (some p) paras =
    if not (is_nil p.runs) && ltb (length paras) max_rich_paras then paras ++ p ∷ [] else paras

unfoldable pub flush : Fold → Fold
flush f = record f { paras = flushed f.cur f.paras; cur = none }

abbrev pub opened : Option RichPara → RichPara
opened none = record { tag = []; depth = 0; runs = [] }
opened (some p) = p

-- a run goes to the open paragraph, or to a new one
unfoldable pub put : RichRun → Fold → Fold
put r f = record f { cur = some (append (opened f.cur) r) }

abbrev pub styled : SpanState → Bytes → RichRun
styled st text = record {
  text = text;
  bold = ltb 0 st.bold;
  italic = ltb 0 st.italic;
  underline = ltb 0 st.under;
  code_font = ltb 0 st.code_depth;
  link = st.link;
}

-- the newline run carries neither underline nor link
abbrev pub break_run : SpanState → RichRun
break_run st = record {
  text = 10 ∷ [];
  bold = ltb 0 st.bold;
  italic = ltb 0 st.italic;
  underline = false;
  code_font = ltb 0 st.code_depth;
  link = [];
}

abbrev pub plain : Bytes → Bool → Bool → RichRun
plain text bold italic = record {
  text = text;
  bold = bold;
  italic = italic;
  underline = false;
  code_font = false;
  link = [];
}

-- "• " in UTF-8
abbrev pub bullet : RichRun
bullet = plain (226 ∷ 128 ∷ 162 ∷ 32 ∷ []) true false

unfoldable pub trim_start : Option RichPara → Bytes → Bytes
trim_start none text = trim_left (λ c. c == 32) text
trim_start (some _) text = text

-- the text that a text event adds: white space between blocks opens no paragraph
unfoldable pub text_of : Fold → Bytes → Bytes
text_of f text = if f.in_pre then text else trim_start f.cur (collapse_space text)

unfoldable pub put_text : Bool → Bytes → Fold → Fold
put_text pre [] f = if pre then put (styled f.st []) f else f
put_text pre (c ∷ s) f = put (styled f.st (c ∷ s)) f

unfoldable pub open_para : Bytes → ℕ → Fold → Fold
open_para tag depth f =
    let fresh = some (record { tag = tag; depth = depth; runs = [] }) in
    if f.pending_bullet
    then put bullet (record f { cur = fresh; pending_bullet = false })
    else record f { cur = fresh }

unfoldable pub open_block : Bytes → ℕ → Fold → Fold
open_block tag depth f =
    if eq_bytes tag (codes "br")
    then f
    else if eq_bytes tag (codes "li")
    then open_para tag depth (record f { pending_bullet = true })
    else if eq_bytes tag (codes "pre")
    then open_para tag depth (record f { in_pre = true })
    else open_para tag depth f

abbrev pub alt_or : Bytes → Bytes
alt_or [] = codes "image"
alt_or (c ∷ s) = c ∷ s

-- one turn of the loop
unfoldable pub step : Fold → RichEvent → Fold
step f (rich_text text) = put_text f.in_pre (text_of f text) f
step f (rich_block_open tag depth) = open_block tag depth (flush f)
step f (rich_block_close tag depth) =
    if eq_bytes tag (codes "pre") then record (flush f) { in_pre = false } else flush f
step f (rich_style_open style) = record f { st = apply f.st style true }
step f (rich_style_close style) = record f { st = apply f.st style false }
step f (rich_link_open href) = record f { st = record f.st { link = href } }
step f rich_link_close = record f { st = record f.st { link = [] } }
step f rich_break = put (break_run f.st) f
step f (rich_image alt) =
    put (plain (codes "[image: " ++ alt_or (trim_space alt) ++ codes "]") false true) f

unfoldable pub steps : List RichEvent → Fold → Fold
steps [] f = f
steps (ev ∷ events) f = steps events (step f ev)

abbrev pub start_fold : Fold
start_fold = record {
  paras = [];
  cur = none;
  st = record { bold = 0; italic = 0; under = 0; code_depth = 0; link = [] };
  pending_bullet = false;
  in_pre = false;
}

unfoldable pub rich_paragraphs : List RichEvent → List RichPara
rich_paragraphs events = (flush (steps events start_fold)).paras
