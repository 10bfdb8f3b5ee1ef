-- ===== src/Mime/Sanitize/Safe.antt =====
-- internal/mail/mime/sanitize.go: which events leave the sanitiser.
use vayu_mail_mobile.Base.{
  ℕ, ◌+◌, ◌≡◌, ◌⊎◌, refl, Bool, true, ◌||◌, Option, none, some, List, [], ◌∷◌, map, Bytes, codes,
  eq_bytes, eq_bytes_sound, eq_bytes_refl, lower, length, ltb, ◌==◌, Bool-cases, inl, inr, All,
  All-append, All-take,
}
use vayu_mail_mobile.Mime.Sanitize.{
  Attr, Node, text_node, element_node, document_node, other_node, Nodes, last, sibling, RichEvent,
  rich_text, rich_block_open, rich_block_close, rich_link_open, rich_link_close, rich_style_open,
  rich_style_close, rich_break, rich_image, max_sanitize_input, max_rich_events, attr_of, safe_href,
  children_of, sanitize_html,
}
use vayu_mail_mobile.Mime.Tags.{has_name, lookup_tag, drop_subtree, rich_block_tags, style_tags}
use vayu_mail_mobile.Mime.Sanitize.Uncapped.{
  Inner, enclosed, render_link, render_block, render_styled, render_named, render_node,
  render_nodes, render_root, render_html,
}
use vayu_mail_mobile.Mime.Sanitize.Reference.{sanitize_html-render}
use vayu_mail_mobile.Mime.Sanitize.Links.{IsLink, safe_href-IsLink}

abbrev block_names : List Bytes
block_names = map (λ p. p.1) rich_block_tags

abbrev style_names : List Bytes
style_names = map (λ p. p.1) style_tags

-- an event that can do nothing: a tag or a style of the tables, a link of the two schemes
abbrev pub IsInert : RichEvent → Type 0
IsInert (rich_block_open tag depth) = has_name tag block_names ≡ true
IsInert (rich_block_close tag depth) = has_name tag block_names ≡ true
IsInert (rich_style_open style) = has_name style style_names ≡ true
IsInert (rich_style_close style) = has_name style style_names ≡ true
IsInert (rich_link_open href) = IsLink href
IsInert _ = Unit

lookup_tag-has_name :
    (s v : Bytes) (table : List (Bytes × Bytes))
    → lookup_tag s table ≡ some v
    → has_name v (map (λ p. p.1) table) ≡ true
unfolding lookup_tag has_name
lookup_tag-has_name s v [] h = cc
lookup_tag-has_name s v ((t, u) ∷ table) h = elim (Bool-cases (eq_bytes s t)) [
  | inl same ↦
      let found : some u ≡ some v = rw same at h in
      let f : u ≡ v = cc in rw f (rw (eq_bytes_refl v) refl)
  | inr other ↦
      let rest = lookup_tag-has_name s v table (rw other at h) in
      elim (Bool-cases (eq_bytes v u)) [ inl same ↦ rw same refl | inr differs ↦ rw differs rest ]
]

-- an event that a tag of the document causes
abbrev pub IsMarkup : RichEvent → Type 0
IsMarkup (rich_text text) = ⊥
IsMarkup _ = Unit

allowed_or_empty :
    (parses : Bytes → Bool) (raw : Bytes)
    → (safe_href parses raw ≡ []) ⊎ IsLink (safe_href parses raw)
allowed_or_empty parses raw = elim (safe_href-IsLink parses raw) [
  | inl empty ↦ inl empty
  | inr link ↦ inr link.1
]

quote_listed : has_name (codes "blockquote") block_names ≡ true
unfolding has_name eq_bytes
quote_listed = refl

-- what inert markup has and the events of the children have, the events of an element have
module _ (P : RichEvent → Type 0) (inert : (ev : RichEvent) → IsInert ev → IsMarkup ev → P ev) where
  around :
      (start stop : RichEvent) (events : List RichEvent)
      → P start
      → P stop
      → All P events
      → All P (enclosed start stop events)
  around start stop events a b h = (a, All-append P events (stop ∷ []) h (b, tt))

  render_link-P :
      (href : Bytes) (inner : Inner) (depth : ℕ)
      → (href ≡ []) ⊎ IsLink href
      → ((d : ℕ) → All P (inner d))
      → All P (render_link href inner depth)
  render_link-P [] inner depth link h = h depth
  render_link-P (c ∷ s) inner depth (inl empty) h = let no_way : ⊥ = cc in elim no_way [ ]
  render_link-P (c ∷ s) inner depth (inr link) h =
      around (rich_link_open (c ∷ s)) rich_link_close (inner depth)
        (inert (rich_link_open (c ∷ s)) link tt) (inert rich_link_close tt tt) (h depth)

  render_block-P :
      (name : Bytes) (o : Option Bytes) (inner : Inner) (depth : ℕ)
      → lookup_tag name rich_block_tags ≡ o
      → ((d : ℕ) → All P (inner d))
      → All P (render_block o inner depth)
  render_block-P name none inner depth e h = h depth
  render_block-P name (some tag) inner depth e h =
      let listed = lookup_tag-has_name name tag rich_block_tags e in
      around (rich_block_open tag depth) (rich_block_close tag depth) (inner depth)
        (inert (rich_block_open tag depth) listed tt) (inert (rich_block_close tag depth) listed tt)
        (h depth)

  render_styled-P :
      (name : Bytes) (o : Option Bytes) (inner : Inner) (depth : ℕ)
      → lookup_tag name style_tags ≡ o
      → ((d : ℕ) → All P (inner d))
      → All P (render_styled name o inner depth)
  render_styled-P name (some style) inner depth e h =
      let listed = lookup_tag-has_name name style style_tags e in
      around (rich_style_open style) (rich_style_close style) (inner depth)
        (inert (rich_style_open style) listed tt) (inert (rich_style_close style) listed tt)
        (h depth)
  render_styled-P name none inner depth e h = elim (Bool-cases (eq_bytes name (codes "br"))) [
    | inl br ↦ rw br (inert rich_break tt tt, tt)
    | inr other ↦
        rw other (render_block-P name (lookup_tag name rich_block_tags) inner depth refl h)
  ]

  render_quote-P :
      (name : Bytes) (inner : Inner) (depth : ℕ)
      → eq_bytes name (codes "blockquote") ≡ true
      → ((d : ℕ) → All P (inner d))
      → All P (
          enclosed
            (rich_block_open name (depth + 1))
            (rich_block_close name (depth + 1))
            (inner (depth + 1)))
  render_quote-P name inner depth quote h =
      let listed : has_name name block_names ≡ true =
        rw (eq_bytes_sound name (codes "blockquote") quote) quote_listed in
      around (rich_block_open name (depth + 1)) (rich_block_close name (depth + 1))
        (inner (depth + 1)) (inert (rich_block_open name (depth + 1)) listed tt)
        (inert (rich_block_close name (depth + 1)) listed tt) (h (depth + 1))

  pub render_named-All :
      (parses : Bytes → Bool) (name : Bytes) (attrs : List Attr) (inner : Inner) (depth : ℕ)
      → ((d : ℕ) → All P (inner d))
      → All P (render_named parses name attrs inner depth)
  unfolding render_named
  render_named-All parses name attrs inner depth h =
      elim (Bool-cases (eq_bytes name (codes "blockquote"))) [
        | inl quote ↦ rw quote (render_quote-P name inner depth quote h)
        | inr n1 ↦ rw n1 (elim (Bool-cases (eq_bytes name (codes "a"))) [
          | inl anchor ↦ rw anchor (
              render_link-P (safe_href parses (attr_of attrs (codes "href"))) inner depth
                (allowed_or_empty parses (attr_of attrs (codes "href"))) h)
          | inr n2 ↦ rw n2 (elim (Bool-cases (eq_bytes name (codes "img"))) [
            | inl image ↦ rw image (inert (rich_image (attr_of attrs (codes "alt"))) tt tt, tt)
            | inr n3 ↦ rw n3 (render_styled-P name (lookup_tag name style_tags) inner depth refl h)
          ])
        ])
      ]

abbrev Inert : List RichEvent → Type 0
Inert events = All IsInert events

mutual
  unfolding render_node

  render_node-Inert :
      (parses : Bytes → Bool) (n : Node) (depth : ℕ) → Inert (render_node parses n depth)
  render_node-Inert parses (text_node data_) depth = (tt, tt)
  render_node-Inert parses (element_node data_ attrs children) depth =
      elim (Bool-cases (has_name (map lower data_) drop_subtree)) [
        | inl dropped ↦ rw dropped tt
        | inr kept ↦ rw kept (
            render_named-All IsInert (λ ev inert markup. inert) parses (map lower data_) attrs
              (λ d. render_nodes parses children d) depth
              (λ d. render_nodes-Inert parses children d))
      ]
  render_node-Inert parses (document_node children) depth = render_nodes-Inert parses children depth
  render_node-Inert parses other_node depth = tt

  render_nodes-Inert :
      (parses : Bytes → Bool) (ns : Nodes) (depth : ℕ) → Inert (render_nodes parses ns depth)
  render_nodes-Inert parses last depth = tt
  render_nodes-Inert parses (sibling n rest) depth =
      All-append IsInert (render_node parses n depth) (render_nodes parses rest depth)
        (render_node-Inert parses n depth) (render_nodes-Inert parses rest depth)

render_root-Inert : (parses : Bytes → Bool) (root : Option Node) → Inert (render_root parses root)
unfolding render_root
render_root-Inert parses none = tt
render_root-Inert parses (some root) = render_nodes-Inert parses (children_of root) 0

render_html-Inert :
    (parses : Bytes → Bool) (parse : Bytes → Option Node) (src : Bytes)
    → Inert (render_html parses parse src)
unfolding render_html
render_html-Inert parses parse src =
    elim (Bool-cases (length src == 0 || ltb max_sanitize_input (length src))) [
      | inl refused ↦ rw refused tt
      | inr read ↦ rw read (render_root-Inert parses (parse src))
    ]

-- For every text and whatever document the HTML parser makes of it, each event that `sanitize_html`
-- returns is inert: the tag of a block event is one of the table's, the style of a style event is
-- "b", "i", "u" or "code", and the address of a link begins with "https:" or "mailto:", letter case
-- aside.
pub sanitize_html-IsInert :
    (parses : Bytes → Bool) (parse : Bytes → Option Node) (src : Bytes)
    → All IsInert (sanitize_html parses parse src)
sanitize_html-IsInert parses parse src = rw (sanitize_html-render parses parse src) (
    All-take IsInert max_rich_events (render_html parses parse src)
      (render_html-Inert parses parse src))
