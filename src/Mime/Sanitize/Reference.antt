-- ===== src/Mime/Sanitize/Reference.antt =====
-- internal/mail/mime/sanitize.go: the walk with the cap, against the events of the document without it.
use vayu_mail_mobile.Base.{
  ℕ, ◌+◌, ◌≡◌, refl, sym, ap, ◌∙◌, Bool, Option, none, some, List, [], ◌∷◌, ◌++◌, append-nil,
  append_assoc, map, Bytes, codes, eq_bytes, lower, length, take, ◌==◌, ◌||◌, ltb, Bool-cases, inl,
  inr,
}
use vayu_mail_mobile.Mime.Capped.{when_full, append_one}
use vayu_mail_mobile.Mime.Sanitize.{
  Attr, Node, text_node, element_node, document_node, other_node, Nodes, last, sibling, RichEvent,
  rich_text, rich_block_open, rich_block_close, rich_link_open, rich_link_close, rich_style_open,
  rich_style_close, rich_break, rich_image, max_sanitize_input, max_rich_events, attr_of,
  append_event, safe_href, Walk, between, emit_link, emit_block, emit_styled, emit_named, emit_node,
  recurse_children, children_of, emit_root, sanitize_html,
}
use vayu_mail_mobile.Mime.Sanitize.Uncapped.{
  Inner, enclosed, render_link, render_block, render_styled, render_named, render_node,
  render_nodes, render_root, render_html,
}
use vayu_mail_mobile.Mime.Tags.{has_name, lookup_tag, drop_subtree, rich_block_tags, style_tags}

-- the list `out` after `events` more, cut at the cap
abbrev capped : List RichEvent → List RichEvent → List RichEvent
capped out events = take max_rich_events (out ++ events)

assoc_enclosed :
    (start stop : RichEvent) (xs events : List RichEvent)
    → ((xs ++ start ∷ []) ++ events) ++ stop ∷ [] ≡ xs ++ enclosed start stop events
assoc_enclosed start stop xs events =
    append_assoc (xs ++ start ∷ []) events (stop ∷ [])
    ∙ append_assoc xs (start ∷ []) (events ++ stop ∷ [])

module _ (parses : Bytes → Bool) where
  -- the walk `w` writes what `inner` says, up to the cap
  abbrev Follows : Walk → Inner → Type 0
  Follows w inner =
      (xs : List RichEvent) (depth : ℕ)
      → w (take max_rich_events xs) depth ≡ capped xs (inner depth)

  append_event-capped :
      (ev : RichEvent) (xs : List RichEvent)
      → append_event ev (take max_rich_events xs) ≡ capped xs (ev ∷ [])
  unfolding append_event
  append_event-capped ev xs = append_one max_rich_events xs ev

  between-capped :
      (start stop : RichEvent) (depth : ℕ) (w : Walk) (inner : Inner)
      → Follows w inner
      → (xs : List RichEvent)
      → between start stop depth w (take max_rich_events xs)
        ≡ capped xs (enclosed start stop (inner depth))
  between-capped start stop depth w inner h xs = rw (append_event-capped start xs) (
      rw (h (xs ++ start ∷ []) depth) (
        rw (append_event-capped stop ((xs ++ start ∷ []) ++ inner depth))
          (ap (λ t. take max_rich_events t) (assoc_enclosed start stop xs (inner depth)))))

  emit_link-Follows :
      (href : Bytes) (w : Walk) (inner : Inner)
      → Follows w inner
      → Follows (emit_link href w) (render_link href inner)
  unfolding emit_link
  emit_link-Follows [] w inner h xs depth = h xs depth
  emit_link-Follows (c ∷ s) w inner h xs depth =
      between-capped (rich_link_open (c ∷ s)) rich_link_close depth w inner h xs

  emit_block-Follows :
      (tag : Option Bytes) (w : Walk) (inner : Inner)
      → Follows w inner
      → Follows (emit_block tag w) (render_block tag inner)
  unfolding emit_block
  emit_block-Follows none w inner h xs depth = h xs depth
  emit_block-Follows (some tag) w inner h xs depth =
      between-capped (rich_block_open tag depth) (rich_block_close tag depth) depth w inner h xs

  emit_styled-Follows :
      (name : Bytes) (style : Option Bytes) (w : Walk) (inner : Inner)
      → Follows w inner
      → Follows (emit_styled name style w) (render_styled name style inner)
  unfolding emit_styled
  emit_styled-Follows name (some style) w inner h xs depth =
      between-capped (rich_style_open style) (rich_style_close style) depth w inner h xs
  emit_styled-Follows name none w inner h xs depth =
      elim (Bool-cases (eq_bytes name (codes "br"))) [
        | inl br ↦ rw br (append_event-capped rich_break xs)
        | inr other ↦
            rw other (emit_block-Follows (lookup_tag name rich_block_tags) w inner h xs depth)
      ]

  emit_named-Follows :
      (name : Bytes) (attrs : List Attr) (w : Walk) (inner : Inner)
      → Follows w inner
      → Follows (emit_named parses name attrs w) (render_named parses name attrs inner)
  unfolding emit_named render_named
  emit_named-Follows name attrs w inner h xs depth =
      elim (Bool-cases (eq_bytes name (codes "blockquote"))) [
        | inl quote ↦ rw quote (
            between-capped (rich_block_open name (depth + 1)) (rich_block_close name (depth + 1))
              (depth + 1) w inner h xs)
        | inr n1 ↦ rw n1 (elim (Bool-cases (eq_bytes name (codes "a"))) [
          | inl anchor ↦ rw anchor (
              emit_link-Follows (safe_href parses (attr_of attrs (codes "href"))) w inner h xs
                depth)
          | inr n2 ↦ rw n2 (elim (Bool-cases (eq_bytes name (codes "img"))) [
            | inl image ↦
                rw image (append_event-capped (rich_image (attr_of attrs (codes "alt"))) xs)
            | inr n3 ↦
                rw n3 (emit_styled-Follows name (lookup_tag name style_tags) w inner h xs depth)
          ])
        ])
      ]

  emit_element-Follows :
      (data_ : Bytes) (attrs : List Attr) (children : Nodes)
      → Follows (recurse_children parses children) (render_nodes parses children)
      → Follows
          (emit_node parses (element_node data_ attrs children))
          (render_node parses (element_node data_ attrs children))
  unfolding emit_node render_node
  emit_element-Follows data_ attrs children h xs depth =
      elim (Bool-cases (has_name (map lower data_) drop_subtree)) [
        | inl dropped ↦ rw dropped (
            when_full max_rich_events xs [] (take max_rich_events xs)
              (ap (λ t. take max_rich_events t) (sym (append-nil xs))))
        | inr kept ↦ rw kept (
            when_full max_rich_events xs
              (render_named parses (map lower data_) attrs (λ d. render_nodes parses children d)
                depth)
              (emit_named parses (map lower data_) attrs
                (λ o d. recurse_children parses children o d) (take max_rich_events xs) depth)
              (emit_named-Follows (map lower data_) attrs
                (λ o d. recurse_children parses children o d) (λ d. render_nodes parses children d)
                h xs depth))
      ]

mutual
  unfolding emit_node render_node append_event

  emit_node-Follows :
      (parses : Bytes → Bool) (n : Node)
      → Follows parses (emit_node parses n) (render_node parses n)
  emit_node-Follows parses (text_node data_) xs depth =
      when_full max_rich_events xs (rich_text data_ ∷ [])
        (append_event (rich_text data_) (take max_rich_events xs))
        (append_event-capped parses (rich_text data_) xs)
  emit_node-Follows parses (element_node data_ attrs children) xs depth =
      emit_element-Follows parses data_ attrs children (recurse_children-Follows parses children) xs
        depth
  emit_node-Follows parses (document_node children) xs depth =
      when_full max_rich_events xs (render_nodes parses children depth)
        (recurse_children parses children (take max_rich_events xs) depth)
        (recurse_children-Follows parses children xs depth)
  emit_node-Follows parses other_node xs depth =
      ap (λ t. take max_rich_events t) (sym (append-nil xs))

  recurse_children-Follows :
      (parses : Bytes → Bool) (ns : Nodes)
      → Follows parses (recurse_children parses ns) (render_nodes parses ns)
  recurse_children-Follows parses last xs depth =
      ap (λ t. take max_rich_events t) (sym (append-nil xs))
  recurse_children-Follows parses (sibling n rest) xs depth =
      rw (emit_node-Follows parses n xs depth) (
        rw (recurse_children-Follows parses rest (xs ++ render_node parses n depth) depth) (
          ap (λ t. take max_rich_events t)
            (append_assoc xs (render_node parses n depth) (render_nodes parses rest depth))))

emit_root-render :
    (parses : Bytes → Bool) (root : Option Node)
    → emit_root parses root ≡ take max_rich_events (render_root parses root)
unfolding emit_root render_root
emit_root-render parses none = refl
emit_root-render parses (some root) = recurse_children-Follows parses (children_of root) [] 0

-- For every text, whatever document the HTML parser makes of it, `sanitize_html` returns the first
-- 20,000 of the events that a walk without any bound would write; it returns none of them when the
-- text is empty, over 512 KiB or not parsed.
pub sanitize_html-render :
    (parses : Bytes → Bool) (parse : Bytes → Option Node) (src : Bytes)
    → sanitize_html parses parse src ≡ take max_rich_events (render_html parses parse src)
unfolding sanitize_html render_html
sanitize_html-render parses parse src =
    elim (Bool-cases (length src == 0 || ltb max_sanitize_input (length src))) [
      | inl refused ↦ rw refused refl
      | inr read ↦ rw read (emit_root-render parses (parse src))
    ]
