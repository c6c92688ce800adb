-- ===== src/Mime/Kind.antt =====
-- `mime_classify` by the set of names alone.
use clipnet.Base.{
  ◌≡◌, refl, sym, subst, inl, inr, Bool, true, false, ◌||◌, List, [], ◌∷◌, arith, if◌then◌else◌,
  Bool-cases, Bytes, codes, bytes_eq, bytes_eq_sound, mem, or_cases,
}
use clipnet.Mime.{
  mime_text, mime_html, mime_uri_list, mime_is_image, Flags, classify_one, is_rich, is_files,
  classify_loop, mime_classify, kind_text, kind_rich, kind_image, kind_files, kind_other,
}

abbrev pub any : (Bytes → Bool) → List Bytes → Bool
any p [] = false
any p (m ∷ ms) = p m || any p ms

-- A test that fails at a literal fails at a name that is equal to it.
only : (p : Bytes → Bool) (a m : Bytes) → p a ≡ false → bytes_eq m a ≡ true → p m ≡ false
only p a m h e = subst (λ (x : Bytes). p x ≡ false) (sym (bytes_eq_sound m a e)) h

only_rich :
    (p : Bytes → Bool) (m : Bytes)
    → p mime_html ≡ false
    → p (codes "text/rtf") ≡ false
    → p (codes "application/rtf") ≡ false
    → is_rich m ≡ true
    → p m ≡ false
unfolding is_rich
only_rich p m h r a e =
    elim (or_cases (bytes_eq m mime_html || bytes_eq m (codes "text/rtf")) _ e) [
      | inr app ↦ only p (codes "application/rtf") m a app
      | inl e' ↦ elim (or_cases (bytes_eq m mime_html) _ e') [
        | inl html ↦ only p mime_html m h html
        | inr rtf ↦ only p (codes "text/rtf") m r rtf
      ]
    ]

only_files :
    (p : Bytes → Bool) (m : Bytes)
    → p mime_uri_list ≡ false
    → p (codes "x-special/gnome-copied-files") ≡ false
    → is_files m ≡ true
    → p m ≡ false
unfolding is_files
only_files p m u g e = elim (or_cases (bytes_eq m mime_uri_list) _ e) [
  | inl uri ↦ only p mime_uri_list m u uri
  | inr gnome ↦ only p (codes "x-special/gnome-copied-files") m g gnome
]

-- One name sets the flag of its own kind: no name passes two of the tests.
classify_one_lem :
    (f : Flags) (m : Bytes)
    → ((classify_one f m).text ≡ (f.text || bytes_eq m mime_text))
      × ((classify_one f m).rich ≡ (f.rich || is_rich m))
      × ((classify_one f m).image ≡ (f.image || mime_is_image m))
      × ((classify_one f m).files ≡ (f.files || is_files m))
classify_one_lem f m = elim (Bool-cases (bytes_eq m mime_text)) [
  | inl e ↦
      let rich = only is_rich mime_text m (unfold is_rich in refl) e in
      let image = only mime_is_image mime_text m (unfold mime_is_image in refl) e in
      let files = only is_files mime_text m (unfold is_files in refl) e in
      unfold classify_one in ground (arith, e, rich, image, files)
  | inr e ↦ elim (Bool-cases (is_rich m)) [
    | inl r ↦
        let image =
          only_rich mime_is_image m (unfold mime_is_image in refl) (unfold mime_is_image in refl)
            (unfold mime_is_image in refl) r in
        let files =
          only_rich is_files m (unfold is_files in refl) (unfold is_files in refl)
            (unfold is_files in refl) r in
        unfold classify_one in ground (arith, e, r, image, files)
    | inr r ↦ elim (Bool-cases (is_files m)) [
      | inl w ↦
          let image =
            only_files mime_is_image m (unfold mime_is_image in refl) (unfold mime_is_image in refl)
              w in
          unfold classify_one in ground (arith, e, r, image, w)
      | inr w ↦ unfold classify_one in ground (arith, e, r, w)
    ]
  ]
]

classify_loop_lem :
    (f : Flags) (ms : List Bytes)
    → ((classify_loop f ms).text ≡ (f.text || mem mime_text ms))
      × ((classify_loop f ms).rich ≡ (f.rich || any is_rich ms))
      × ((classify_loop f ms).image ≡ (f.image || any mime_is_image ms))
      × ((classify_loop f ms).files ≡ (f.files || any is_files ms))
unfolding classify_loop
classify_loop_lem f [] = ground arith
classify_loop_lem f (m ∷ ms) =
    ground (arith, classify_one_lem f m, classify_loop_lem (classify_one f m) ms)

-- The kind of a clip depends on the set of its names only: files come before images, images before rich
-- text, and rich text before text.
mime_classify_lem :
    (ms : List Bytes)
    → mime_classify ms ≡ (
        if any is_files ms
        then kind_files
        else if any mime_is_image ms
        then kind_image
        else if any is_rich ms
        then kind_rich
        else if mem mime_text ms
        then kind_text
        else kind_other)
unfolding mime_classify
mime_classify_lem ms =
    let start : Flags = record { text = false; rich = false; image = false; files = false } in
    ground (arith, classify_loop_lem start ms)
