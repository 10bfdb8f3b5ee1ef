-- ===== src/Mime/Sanitize/Brackets.antt =====
-- internal/mail/mime/sanitize.go: opening and closing events.
use vayu_mail_mobile.Base.{
  ==_refl, ◌≤◌, eq_bytes_refl, ℕ, ◌+◌, ◌≡◌, refl, sym, ap, ◌∙◌, Bool, true, false, ◌&&◌, ◌||◌,
  Option, none, some, List, [], ◌∷◌, ◌++◌, append-nil, append_assoc, map, Bytes, codes, eq_bytes,
  eq_bytes_refl, lower, length, ltb, ◌==◌, Bool-cases, inl, inr,
}
use vayu_mail_mobile.Mime.Sanitize.{
  Attr, Node, text_node, element_node, document_node, other_node, Nodes, last, sibling, RichEvent,
  rich_text, rich_block_open, rich_block_close, rich_link_open, rich_link_close, rich_style_open,
  rich_style_close, rich_break, rich_image, max_sanitize_input, max_rich_events, attr_of, safe_href,
  children_of, sanitize_html,
}
use vayu_mail_mobile.Mime.Tags.{has_name, lookup_tag, drop_subtree, rich_block_tags, style_tags}
use vayu_mail_mobile.Mime.Sanitize.Uncapped.{
  Inner, enclosed, render_link, render_block, render_styled, render_named, render_node,
  render_nodes, render_root, render_html,
}
use vayu_mail_mobile.Mime.Sanitize.Reference.{sanitize_html-render}
use vayu_mail_mobile.Mime.Capped.{take_short}

-- Read the events with the closing events that are still due: each opening event calls for its own
-- closing event, and at the end none is due.
unfoldable pub brackets : List RichEvent → List RichEvent → Bool
brackets [] [] = true
brackets (due ∷ stack) [] = false
brackets stack (rich_text _ ∷ events) = brackets stack events
brackets stack (rich_break ∷ events) = brackets stack events
brackets stack (rich_image _ ∷ events) = brackets stack events
brackets stack (rich_block_open tag depth ∷ events) =
    brackets (rich_block_close tag depth ∷ stack) events
brackets stack (rich_link_open _ ∷ events) = brackets (rich_link_close ∷ stack) events
brackets stack (rich_style_open style ∷ events) = brackets (rich_style_close style ∷ stack) events
brackets (rich_block_close tag depth ∷ stack) (rich_block_close closed level ∷ events) =
    let rest = brackets stack events in eq_bytes tag closed && depth == level && rest
brackets (rich_link_close ∷ stack) (rich_link_close ∷ events) = brackets stack events
brackets (rich_style_close style ∷ stack) (rich_style_close closed ∷ events) =
    let rest = brackets stack events in eq_bytes style closed && rest
brackets _ (_ ∷ events) = false

-- the events leave what is due as it was
abbrev Closed : List RichEvent → Type 0
Closed events =
    (stack rest : List RichEvent) → brackets stack (events ++ rest) ≡ brackets stack rest

-- the closing event answers the opening one
abbrev Pair : RichEvent → RichEvent → Type 0
Pair start stop =
    (stack events rest : List RichEvent)
    → (brackets stack (start ∷ events) ≡ brackets (stop ∷ stack) events)
      × (brackets (stop ∷ stack) (stop ∷ rest) ≡ brackets stack rest)

enclosed-Closed :
    (start stop : RichEvent) (events : List RichEvent)
    → Pair start stop
    → Closed events
    → Closed (enclosed start stop events)
enclosed-Closed start stop events pair h stack rest =
    (pair stack ((events ++ stop ∷ []) ++ rest) rest).0
    ∙ ap (λ t. brackets (stop ∷ stack) t) (append_assoc events (stop ∷ []) rest)
    ∙ h (stop ∷ stack) (stop ∷ rest)
    ∙ (pair stack [] rest).1

link-Pair : (href : Bytes) → Pair (rich_link_open href) rich_link_close
unfolding brackets
link-Pair href stack events rest = (refl, refl)

style-Pair : (style : Bytes) → Pair (rich_style_open style) (rich_style_close style)
unfolding brackets
style-Pair style stack events rest = (refl, rw (eq_bytes_refl style) refl)

block-Pair :
    (tag : Bytes) (depth : ℕ) → Pair (rich_block_open tag depth) (rich_block_close tag depth)
unfolding brackets
block-Pair tag depth stack events rest = (refl, rw (eq_bytes_refl tag) (rw (==_refl depth) refl))

render_link-Closed :
    (href : Bytes) (inner : Inner) (depth : ℕ)
    → ((d : ℕ) → Closed (inner d))
    → Closed (render_link href inner depth)
render_link-Closed [] inner depth h = h depth
render_link-Closed (c ∷ s) inner depth h =
    enclosed-Closed (rich_link_open (c ∷ s)) rich_link_close (inner depth) (link-Pair (c ∷ s))
      (h depth)

render_block-Closed :
    (o : Option Bytes) (inner : Inner) (depth : ℕ)
    → ((d : ℕ) → Closed (inner d))
    → Closed (render_block o inner depth)
render_block-Closed none inner depth h = h depth
render_block-Closed (some tag) inner depth h =
    enclosed-Closed (rich_block_open tag depth) (rich_block_close tag depth) (inner depth)
      (block-Pair tag depth) (h depth)

render_styled-Closed :
    (name : Bytes) (o : Option Bytes) (inner : Inner) (depth : ℕ)
    → ((d : ℕ) → Closed (inner d))
    → Closed (render_styled name o inner depth)
unfolding brackets
render_styled-Closed name (some style) inner depth h =
    enclosed-Closed (rich_style_open style) (rich_style_close style) (inner depth)
      (style-Pair style) (h depth)
render_styled-Closed name none inner depth h = elim (Bool-cases (eq_bytes name (codes "br"))) [
  | inl br ↦ rw br (λ stack rest. refl)
  | inr other ↦ rw other (render_block-Closed (lookup_tag name rich_block_tags) inner depth h)
]

render_named-Closed :
    (parses : Bytes → Bool) (name : Bytes) (attrs : List Attr) (inner : Inner) (depth : ℕ)
    → ((d : ℕ) → Closed (inner d))
    → Closed (render_named parses name attrs inner depth)
unfolding render_named brackets
render_named-Closed parses name attrs inner depth h =
    elim (Bool-cases (eq_bytes name (codes "blockquote"))) [
      | inl quote ↦ rw quote (
          enclosed-Closed (rich_block_open name (depth + 1)) (rich_block_close name (depth + 1))
            (inner (depth + 1)) (block-Pair name (depth + 1)) (h (depth + 1)))
      | inr n1 ↦ rw n1 (elim (Bool-cases (eq_bytes name (codes "a"))) [
        | inl anchor ↦
            rw anchor
              (render_link-Closed (safe_href parses (attr_of attrs (codes "href"))) inner depth h)
        | inr n2 ↦ rw n2 (elim (Bool-cases (eq_bytes name (codes "img"))) [
          | inl image ↦ rw image (λ stack rest. refl)
          | inr n3 ↦ rw n3 (render_styled-Closed name (lookup_tag name style_tags) inner depth h)
        ])
      ])
    ]

mutual
  unfolding render_node brackets

  render_node-Closed :
      (parses : Bytes → Bool) (n : Node) (depth : ℕ) → Closed (render_node parses n depth)
  render_node-Closed parses (text_node data_) depth = λ stack rest. refl
  render_node-Closed parses (element_node data_ attrs children) depth =
      elim (Bool-cases (has_name (map lower data_) drop_subtree)) [
        | inl dropped ↦ rw dropped (λ stack rest. refl)
        | inr kept ↦ rw kept (
            render_named-Closed parses (map lower data_) attrs (λ d. render_nodes parses children d)
              depth (λ d. render_nodes-Closed parses children d))
      ]
  render_node-Closed parses (document_node children) depth =
      render_nodes-Closed parses children depth
  render_node-Closed parses other_node depth = λ stack rest. refl

  render_nodes-Closed :
      (parses : Bytes → Bool) (ns : Nodes) (depth : ℕ) → Closed (render_nodes parses ns depth)
  render_nodes-Closed parses last depth = λ stack rest. refl
  render_nodes-Closed parses (sibling n ns) depth = λ stack rest.
      ap (λ t. brackets stack t)
        (append_assoc (render_node parses n depth) (render_nodes parses ns depth) rest)
      ∙ render_node-Closed parses n depth stack (render_nodes parses ns depth ++ rest)
      ∙ render_nodes-Closed parses ns depth stack rest

render_root-brackets :
    (parses : Bytes → Bool) (root : Option Node) → brackets [] (render_root parses root) ≡ true
unfolding render_root brackets
render_root-brackets parses none = refl
render_root-brackets parses (some root) =
    ap (λ t. brackets [] t) (sym (append-nil (render_nodes parses (children_of root) 0)))
    ∙ render_nodes-Closed parses (children_of root) 0 [] []

render_html-brackets :
    (parses : Bytes → Bool) (parse : Bytes → Option Node) (src : Bytes)
    → brackets [] (render_html parses parse src) ≡ true
unfolding render_html brackets
render_html-brackets parses parse src =
    elim (Bool-cases (length src == 0 || ltb max_sanitize_input (length src))) [
      | inl refused ↦ rw refused refl
      | inr read ↦ rw read (render_root-brackets parses (parse src))
    ]

-- For every text whose document has at most 20,000 events, the events that `sanitize_html` returns
-- are well bracketed: each opening event of a block, a link or a style is closed by the closing
-- event of the same tag and depth or of the same style, in the order of nesting, and no closing
-- event stands alone.
sanitize_html-brackets :
    (parses : Bytes → Bool) (parse : Bytes → Option Node) (src : Bytes)
    → length (render_html parses parse src) ≤ max_rich_events
    → brackets [] (sanitize_html parses parse src) ≡ true
sanitize_html-brackets parses parse src h = rw (sanitize_html-render parses parse src) (
    rw (take_short max_rich_events (render_html parses parse src) h)
      (render_html-brackets parses parse src))
