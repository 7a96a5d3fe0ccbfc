-- ===== src/Wiki/Plain/Tests.antt =====
-- Runs of the plain text of a wikitext.
use talaria_v.Base.{◌≡◌, refl, All}
use talaria_v.Text.{Text, codes, to_ascii_lowercase, join, split_whitespace}
use talaria_v.Text.Sample.{ascii_tables}
use talaria_v.Wiki.{erase}
use talaria_v.Wiki.Sentences.{wiki_heading_spans}
use talaria_v.Wiki.Links.{extract_wikilinks}
use talaria_v.Wiki.Fragments.Refs.{locate_refs}
use talaria_v.Wiki.Rounds.{CommentsLoop, TemplatesLoop, LinksLoop, WikilinksLoop}
use talaria_v.Wiki.Rounds.Scans.{HeadingsLoop, RefsLoop, rounds-terminate}
use talaria_v.Wiki.Plain.{
  wikitext_to_plain, strip_html_comments, simplify_wiki_links, collapse_whitespace,
  strip_category_lines, strip_remaining_html_tags, remove_templates, strip_self_closing_tags,
  strip_block_tags,
}
use talaria_v.Wiki.Plain.Words.{collapse_whitespace-words}
use talaria_v.Wiki.Plain.Clean.{IsOutsideTags, wikitext_to_plain-Outside}

plain_ada :
    wikitext_to_plain ascii_tables (
      codes
        "'''Ada''' ({{birth date|1815|12|10}}) was <b>a</b> lady.<ref>x</ref> See [[Engine|her engine]].")
    ≡ codes "Ada ( ) was a lady. See her engine ."
unfolding wikitext_to_plain strip_html_comments collapse_whitespace erase strip_category_lines
    strip_remaining_html_tags simplify_wiki_links remove_templates strip_self_closing_tags
    strip_block_tags to_ascii_lowercase
plain_ada = refl

-- The text before a comment that is not closed is written twice.
open_comment : strip_html_comments (codes "ab<!-- c") ≡ codes "abab<!-- c"
unfolding strip_html_comments
open_comment = refl

-- So is the text before a link that is not closed.
open_link : simplify_wiki_links ascii_tables (codes "ab[[c") ≡ codes "abab[[c"
unfolding simplify_wiki_links
open_link = refl

-- A reference that closes itself takes the text up to the next closing tag with it.
named_reference :
    strip_block_tags ascii_tables (codes "a<ref name=x/> b <ref>y</ref> c") (codes "ref")
    ≡ codes "a  c"
unfolding strip_block_tags to_ascii_lowercase
named_reference = refl

-- Without a closing tag behind it, it takes the rest of the text.
last_reference :
    strip_block_tags ascii_tables (codes "Born.<ref name=x/> He died.") (codes "ref")
    ≡ codes "Born. "
unfolding strip_block_tags to_ascii_lowercase
last_reference = refl

collapse_whitespace-words_example :
    collapse_whitespace (codes " a  b ") ≡ join (split_whitespace (codes " a  b ")) (codes " ")
collapse_whitespace-words_example = collapse_whitespace-words (codes " a  b ")

wikitext_to_plain-Outside_example :
    All IsOutsideTags (wikitext_to_plain ascii_tables (codes "a <b>c</b> < d"))
wikitext_to_plain-Outside_example = wikitext_to_plain-Outside ascii_tables (codes "a <b>c</b> < d")

abbrev marked : Text
marked = codes "a <!-- b --> {{c}} [[d|e]] == f == <ref>g</ref>"

rounds-terminate_example :
    CommentsLoop marked (strip_html_comments marked)
    × (TemplatesLoop marked (remove_templates marked)
        × (LinksLoop ascii_tables marked (simplify_wiki_links ascii_tables marked)
            × (WikilinksLoop ascii_tables marked (extract_wikilinks ascii_tables marked)
                × (HeadingsLoop 0 marked (wiki_heading_spans marked)
                    × RefsLoop 0 marked (locate_refs marked)))))
rounds-terminate_example = rounds-terminate ascii_tables marked
