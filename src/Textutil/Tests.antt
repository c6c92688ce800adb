-- ===== src/Textutil/Tests.antt =====
-- Previews and URI lists at concrete texts.
use clipnet.Base.{ℕ, ◌≡◌, refl, true, false, some, [], ◌∷◌, ◌++◌, arith, All, Bytes, codes}
use clipnet.Util.Utf8.{utf8_valid, decode, seq_len}
use clipnet.Textutil.Html.{html_to_text}
use clipnet.Textutil.Html.Ends.{ends_blank, IsPlain, html_to_text_lem, blank_byte}
use clipnet.Textutil.{is_space, text_preview, hexval, uri_list_to_paths, preview_copy}
use clipnet.Textutil.Uri.{
  Spells, Entry, uri_list, lines, uri_list_to_paths-uri_list, spells_nil, spells_plain,
  spells_escape,
}
use clipnet.Textutil.Words.{visible, IsPreview}
use clipnet.Textutil.Preview.{text_preview-IsPreview}

-- Two words, a tab, a line break and U+00E9.
abbrev words : Bytes
words = codes "  ab\t\nc" ++ 0xC3 ∷ 0xA9 ∷ codes "  de"

preview_run : text_preview words 5 ≡ codes "ab c" ++ 0xC3 ∷ 0xA9 ∷ []
unfolding text_preview seq_len is_space preview_copy
preview_run = refl

text_preview-IsPreview_example : IsPreview 5 (visible (decode words)) (text_preview words 5)
text_preview-IsPreview_example =
    text_preview-IsPreview words 5 (omega arith) (unfold utf8_valid in refl)

-- "%41%2f" spells "A/".
escaped : Spells (codes "/%41%2fb") (codes "/A/b")
unfolding hexval
escaped = spells_plain b'/' (ground arith) (
    spells_escape b'4' b'1' refl refl
      (spells_escape b'2' b'f' refl refl (spells_plain b'b' (ground arith) spells_nil)))

abbrev on_host : Entry
on_host = record {
  host = codes "pc";
  spelled = codes "%41%2fb";
  path = codes "/A/b";
  host_plain = ground arith;
  spelled_plain = ground arith;
  spells = escaped;
}

uri_list_to_paths-uri_list_example :
    uri_list_to_paths (uri_list (on_host ∷ on_host ∷ [])) ≡ codes "/A/b\n/A/b"
uri_list_to_paths-uri_list_example =
    unfold lines in uri_list_to_paths-uri_list (on_host ∷ on_host ∷ [])

-- A document with a tag, a number and a script; every number is read as 65.
abbrev as_65 : ℕ → Bytes → ℕ × Bytes
as_65 base s = (65, [])

abbrev page : Bytes
page = codes "a<b>x</B> &#9;&lt;<script>if (a>b) &amp;</script><p>y \n"

html_runs :
    (html_to_text as_65 page ≡ some (codes "ax A<\ny"))
    × (html_to_text as_65 (codes "<!-- <p> -->&amp &;") ≡ some (codes "&amp &;"))
unfolding html_to_text
html_runs = (refl, refl)

-- A `<` in a script hides the tag that closes it, and the text behind the script is lost.
hidden_close : html_to_text as_65 (codes "x<script>a<b</script>y") ≡ some (codes "x")
unfolding html_to_text
hidden_close = refl

html_to_text_lem_example :
    (r : Bytes) × (html_to_text as_65 page ≡ some r)
    × (ends_blank r ≡ false)
    × (All IsPlain page → (gone : Bytes) × (page ≡ r ++ gone) × All (λ c. blank_byte c ≡ true) gone)
html_to_text_lem_example = html_to_text_lem as_65 page
