-- ===== src/Mime/Tags.antt =====
-- internal/mail/mime/sanitize.go: the tables of tags, and their lookup.
use vayu_mail_mobile.Base.{
  Bool, false, ◌||◌, Option, none, some, List, [], ◌∷◌, Bytes, codes, eq_bytes, if◌then◌else◌,
}

unfoldable pub has_name : Bytes → List Bytes → Bool
has_name s [] = false
has_name s (t ∷ names) = let rest = has_name s names in eq_bytes s t || rest

unfoldable pub lookup_tag : Bytes → List (Bytes × Bytes) → Option Bytes
lookup_tag s [] = none
lookup_tag s ((t, v) ∷ table) =
    let rest = lookup_tag s table in if eq_bytes s t then some v else rest

abbrev pub drop_subtree : List Bytes
drop_subtree =
    codes "script"
    ∷ codes "style"
    ∷ codes "head"
    ∷ codes "title"
    ∷ codes "iframe"
    ∷ codes "object"
    ∷ codes "embed"
    ∷ codes "applet"
    ∷ codes "noscript"
    ∷ codes "template"
    ∷ codes "svg"
    ∷ codes "math"
    ∷ codes "form"
    ∷ codes "input"
    ∷ codes "button"
    ∷ codes "select"
    ∷ codes "option"
    ∷ codes "textarea"
    ∷ codes "label"
    ∷ codes "fieldset"
    ∷ codes "audio"
    ∷ codes "video"
    ∷ codes "source"
    ∷ codes "track"
    ∷ codes "canvas"
    ∷ codes "frame"
    ∷ codes "frameset"
    ∷ codes "base"
    ∷ codes "link"
    ∷ codes "meta"
    ∷ codes "dialog"
    ∷ codes "slot"
    ∷ []

abbrev pub rich_block_tags : List (Bytes × Bytes)
rich_block_tags =
    (codes "p", codes "p")
    ∷ (codes "br", codes "br")
    ∷ (codes "div", codes "p")
    ∷ (codes "section", codes "p")
    ∷ (codes "article", codes "p")
    ∷ (codes "h1", codes "h1")
    ∷ (codes "h2", codes "h2")
    ∷ (codes "h3", codes "h3")
    ∷ (codes "h4", codes "h4")
    ∷ (codes "h5", codes "h5")
    ∷ (codes "h6", codes "h6")
    ∷ (codes "blockquote", codes "blockquote")
    ∷ (codes "pre", codes "pre")
    ∷ (codes "ul", codes "ul")
    ∷ (codes "ol", codes "ol")
    ∷ (codes "li", codes "li")
    ∷ (codes "tr", codes "tr")
    ∷ (codes "td", codes "td")
    ∷ (codes "th", codes "td")
    ∷ []

-- the styles of the case "b", "strong", "i", "em", "u", "code"
abbrev pub style_tags : List (Bytes × Bytes)
style_tags =
    (codes "b", codes "b")
    ∷ (codes "strong", codes "b")
    ∷ (codes "i", codes "i")
    ∷ (codes "em", codes "i")
    ∷ (codes "u", codes "u")
    ∷ (codes "code", codes "code")
    ∷ []
