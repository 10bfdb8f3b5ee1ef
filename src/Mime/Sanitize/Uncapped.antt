-- ===== src/Mime/Sanitize/Uncapped.antt =====
-- internal/mail/mime/sanitize.go: the events of a document, without the cap.
use vayu_mail_mobile.Base.{
  ℕ, ◌+◌, Bool, Option, none, some, List, [], ◌∷◌, ◌++◌, map, Bytes, codes, eq_bytes, lower, length,
  ◌==◌, ◌||◌, ltb, if◌then◌else◌,
}
use vayu_mail_mobile.Mime.Sanitize.{
  Attr, Node, text_node, element_node, document_node, other_node, Nodes, last, sibling, RichEvent,
  rich_text, rich_block_open, rich_block_close, rich_link_open, rich_link_close, rich_style_open,
  rich_style_close, rich_break, rich_image, max_sanitize_input, attr_of, safe_href, children_of,
}
use vayu_mail_mobile.Mime.Tags.{has_name, lookup_tag, drop_subtree, rich_block_tags, style_tags}

abbrev pub Inner : Type 0
Inner = ℕ → List RichEvent

abbrev pub enclosed : RichEvent → RichEvent → List RichEvent → List RichEvent
enclosed start stop events = start ∷ events ++ stop ∷ []

abbrev pub render_link : Bytes → Inner → Inner
render_link [] inner depth = inner depth
render_link (c ∷ s) inner depth = enclosed (rich_link_open (c ∷ s)) rich_link_close (inner depth)

abbrev pub render_block : Option Bytes → Inner → Inner
render_block none inner depth = inner depth
render_block (some tag) inner depth =
    enclosed (rich_block_open tag depth) (rich_block_close tag depth) (inner depth)

abbrev pub render_styled : Bytes → Option Bytes → Inner → Inner
render_styled name (some style) inner depth =
    enclosed (rich_style_open style) (rich_style_close style) (inner depth)
render_styled name none inner depth =
    if eq_bytes name (codes "br")
    then rich_break ∷ []
    else render_block (lookup_tag name rich_block_tags) inner depth

unfoldable pub render_named : (Bytes → Bool) → Bytes → List Attr → Inner → Inner
render_named parses name attrs inner depth =
    if eq_bytes name (codes "blockquote")
    then enclosed (rich_block_open name (depth + 1)) (rich_block_close name (depth + 1))
        (inner (depth + 1))
    else if eq_bytes name (codes "a")
    then render_link (safe_href parses (attr_of attrs (codes "href"))) inner depth
    else if eq_bytes name (codes "img")
    then rich_image (attr_of attrs (codes "alt")) ∷ []
    else render_styled name (lookup_tag name style_tags) inner depth

-- every event of the document: a function of the nodes alone, without the list written so far
unfoldable mutual
  pub render_node : (Bytes → Bool) → Node → ℕ → List RichEvent
  render_node parses (text_node data_) depth = rich_text data_ ∷ []
  render_node parses (element_node data_ attrs children) depth =
      if has_name (map lower data_) drop_subtree
      then []
      else render_named parses (map lower data_) attrs (λ d. render_nodes parses children d) depth
  render_node parses (document_node children) depth = render_nodes parses children depth
  render_node parses other_node depth = []

  pub render_nodes : (Bytes → Bool) → Nodes → ℕ → List RichEvent
  render_nodes parses last depth = []
  render_nodes parses (sibling n rest) depth =
      render_node parses n depth ++ render_nodes parses rest depth

-- every event of a document, or none where the code refuses to parse it
unfoldable pub render_root : (Bytes → Bool) → Option Node → List RichEvent
render_root parses none = []
render_root parses (some root) = render_nodes parses (children_of root) 0

unfoldable pub render_html : (Bytes → Bool) → (Bytes → Option Node) → Bytes → List RichEvent
render_html parses parse src =
    if length src == 0 || ltb max_sanitize_input (length src)
    then []
    else render_root parses (parse src)
