-- ===== src/Mime/Tests.antt =====
-- An offer of a browser, and the theorems at it.
use clipnet.Base.{◌≤◌, ◌≡◌, refl, true, List, [], ◌∷◌, arith, length, Bytes, codes, Distinct}
use clipnet.Mime.{
  mime_text, mime_html, mime_png, text_rank, mime_is_text_alias, mime_is_image, canonicals, skipped,
  mime_plan_build, is_rich, is_files, classify_one, mime_classify, kind_image,
}
use clipnet.Mime.Offered.{mime_plan_build_complete, has_read}
use clipnet.Mime.Reads.{mime_plan_build_bounds, mime_plan_build-Distinct}
use clipnet.Mime.Text.{StartsWithText, mime_plan_build_text}

abbrev offer : List Bytes
offer =
    codes "STRING"
    ∷ mime_html
    ∷ codes "image/jpeg"
    ∷ mime_png
    ∷ codes "UTF8_STRING"
    ∷ mime_html
    ∷ codes "TARGETS"
    ∷ []

offer_reads : canonicals (mime_plan_build offer).reads ≡ mime_text ∷ mime_html ∷ mime_png ∷ []
unfolding mime_plan_build text_rank mime_is_text_alias
offer_reads = refl

offer_aliases : (mime_plan_build offer).text_aliases ≡ codes "STRING" ∷ codes "UTF8_STRING" ∷ []
unfolding mime_plan_build text_rank
offer_aliases = refl

offer_kind : mime_classify (mime_text ∷ mime_html ∷ mime_png ∷ []) ≡ kind_image
unfolding mime_classify classify_one mime_is_image is_rich is_files
offer_kind = refl

mime_plan_build_bounds_example :
    (length (mime_plan_build offer).reads ≤ 32) × (length (mime_plan_build offer).text_aliases ≤ 16)
mime_plan_build_bounds_example = mime_plan_build_bounds offer

mime_plan_build-Distinct_example : Distinct (canonicals (mime_plan_build offer).reads)
mime_plan_build-Distinct_example = mime_plan_build-Distinct offer

mime_plan_build_complete_example : has_read mime_html (mime_plan_build offer).reads ≡ true
mime_plan_build_complete_example =
    mime_plan_build_complete offer mime_html refl
      (unfold skipped mime_is_text_alias text_rank in refl)
      (unfold mime_plan_build text_rank mime_is_text_alias in omega arith)

mime_plan_build_text_example : StartsWithText offer (mime_plan_build offer).reads 3
mime_plan_build_text_example =
    mime_plan_build_text offer (codes "STRING") 3 refl (unfold text_rank in refl)
