-- ===== src/Mime/Sanitize/Visible.antt =====
-- internal/mail/mime/sanitize.go: whose text the events carry.
use vayu_mail_mobile.Base.{
  ℕ, ◌≡◌, ◌⊎◌, refl, Bool, false, ◌||◌, Option, some, List, [], ◌∷◌, map, Bytes, lower, length, ltb,
  ◌==◌, Bool-cases, inl, inr, All, All-append, All-take,
}
use vayu_mail_mobile.Mime.Sanitize.{
  Node, text_node, element_node, document_node, other_node, Nodes, last, sibling, RichEvent,
  rich_text, rich_block_open, rich_block_close, rich_link_open, rich_link_close, rich_style_open,
  rich_style_close, rich_break, rich_image, max_sanitize_input, max_rich_events, children_of,
  sanitize_html,
}
use vayu_mail_mobile.Mime.Tags.{has_name, drop_subtree}
use vayu_mail_mobile.Mime.Sanitize.Uncapped.{render_node, render_nodes, render_root, render_html}
use vayu_mail_mobile.Mime.Sanitize.Reference.{sanitize_html-render}
use vayu_mail_mobile.Mime.Sanitize.Safe.{IsInert, IsMarkup, render_named-All}

-- the text is that of a text node that stands inside no dropped element
unfoldable mutual
  pub Visible : Bytes → Node → Type 0
  Visible text (text_node data_) = text ≡ data_
  Visible text (element_node data_ attrs children) =
      (has_name (map lower data_) drop_subtree ≡ false) × VisibleIn text children
  Visible text (document_node children) = VisibleIn text children
  Visible text other_node = ⊥

  pub VisibleIn : Bytes → Nodes → Type 0
  VisibleIn text last = ⊥
  VisibleIn text (sibling n rest) = Visible text n ⊎ VisibleIn text rest

-- a text event of a visible text
abbrev pub IsSaid : (Bytes → Type 0) → RichEvent → Type 0
IsSaid Seen (rich_text text) = Seen text
IsSaid Seen _ = Unit

weaken_event :
    (P Q : Bytes → Type 0)
    → ((text : Bytes) → P text → Q text)
    → (ev : RichEvent) → IsSaid P ev
    → IsSaid Q ev
weaken_event P Q h (rich_text text) p = h text p
weaken_event P Q h (rich_block_open _ _) _ = tt
weaken_event P Q h (rich_block_close _ _) _ = tt
weaken_event P Q h (rich_link_open _) _ = tt
weaken_event P Q h rich_link_close _ = tt
weaken_event P Q h (rich_style_open _) _ = tt
weaken_event P Q h (rich_style_close _) _ = tt
weaken_event P Q h rich_break _ = tt
weaken_event P Q h (rich_image _) _ = tt

weaken_list :
    (P Q : Bytes → Type 0)
    → ((text : Bytes) → P text → Q text)
    → (events : List RichEvent) → All (IsSaid P) events
    → All (IsSaid Q) events
weaken_list P Q h [] _ = tt
weaken_list P Q h (ev ∷ events) (p, rest) = (weaken_event P Q h ev p, weaken_list P Q h events rest)

markup-IsSaid : (Seen : Bytes → Type 0) (ev : RichEvent) → IsInert ev → IsMarkup ev → IsSaid Seen ev
markup-IsSaid Seen (rich_text text) inert markup = elim markup [ ]
markup-IsSaid Seen (rich_block_open _ _) _ _ = tt
markup-IsSaid Seen (rich_block_close _ _) _ _ = tt
markup-IsSaid Seen (rich_link_open _) _ _ = tt
markup-IsSaid Seen rich_link_close _ _ = tt
markup-IsSaid Seen (rich_style_open _) _ _ = tt
markup-IsSaid Seen (rich_style_close _) _ _ = tt
markup-IsSaid Seen rich_break _ _ = tt
markup-IsSaid Seen (rich_image _) _ _ = tt

mutual
  unfolding render_node Visible

  render_node-IsSaid :
      (parses : Bytes → Bool) (n : Node) (depth : ℕ)
      → All (IsSaid (λ text. Visible text n)) (render_node parses n depth)
  render_node-IsSaid parses (text_node data_) depth = (refl, tt)
  render_node-IsSaid parses (element_node data_ attrs children) depth =
      elim (Bool-cases (has_name (map lower data_) drop_subtree)) [
        | inl dropped ↦ rw dropped tt
        | inr kept ↦ rw kept (
            render_named-All (IsSaid (λ text. (false ≡ false) × VisibleIn text children))
              (markup-IsSaid (λ text. (false ≡ false) × VisibleIn text children)) parses
              (map lower data_) attrs (λ d. render_nodes parses children d) depth
              (λ d.
                weaken_list (λ text. VisibleIn text children)
                  (λ text. (false ≡ false) × VisibleIn text children) (λ text seen. (refl, seen))
                  (render_nodes parses children d) (render_nodes-IsSaid parses children d)))
      ]
  render_node-IsSaid parses (document_node children) depth =
      render_nodes-IsSaid parses children depth
  render_node-IsSaid parses other_node depth = tt

  render_nodes-IsSaid :
      (parses : Bytes → Bool) (ns : Nodes) (depth : ℕ)
      → All (IsSaid (λ text. VisibleIn text ns)) (render_nodes parses ns depth)
  render_nodes-IsSaid parses last depth = tt
  render_nodes-IsSaid parses (sibling n rest) depth =
      All-append (IsSaid (λ text. Visible text n ⊎ VisibleIn text rest))
        (render_node parses n depth) (render_nodes parses rest depth)
        (weaken_list (λ text. Visible text n) (λ text. Visible text n ⊎ VisibleIn text rest)
          (λ text seen. inl seen) (render_node parses n depth) (render_node-IsSaid parses n depth))
        (weaken_list (λ text. VisibleIn text rest) (λ text. Visible text n ⊎ VisibleIn text rest)
          (λ text seen. inr seen) (render_nodes parses rest depth)
          (render_nodes-IsSaid parses rest depth))

render_html-IsSaid :
    (parses : Bytes → Bool) (parse : Bytes → Option Node) (src : Bytes) (root : Node)
    → parse src ≡ some root
    → All (IsSaid (λ text. VisibleIn text (children_of root))) (render_html parses parse src)
unfolding render_html render_root
render_html-IsSaid parses parse src root e =
    elim (Bool-cases (length src == 0 || ltb max_sanitize_input (length src))) [
      | inl refused ↦ rw refused tt
      | inr read ↦ rw read (rw e (render_nodes-IsSaid parses (children_of root) 0))
    ]

-- For every text that the HTML parser turns into the document `root`, the text of each text event
-- that `sanitize_html` returns is that of a text node of `root` outside every dropped element
-- (script, style, form and the others of the table).
pub sanitize_html-IsSaid :
    (parses : Bytes → Bool) (parse : Bytes → Option Node) (src : Bytes) (root : Node)
    → parse src ≡ some root
    → All (IsSaid (λ text. VisibleIn text (children_of root))) (sanitize_html parses parse src)
sanitize_html-IsSaid parses parse src root e = rw (sanitize_html-render parses parse src) (
    All-take (IsSaid (λ text. VisibleIn text (children_of root))) max_rich_events
      (render_html parses parse src) (render_html-IsSaid parses parse src root e))
