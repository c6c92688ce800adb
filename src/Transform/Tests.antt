-- ===== src/Transform/Tests.antt =====
-- The transforms on concrete texts, with the C library's functions on ASCII letters.
use clipnet.Base.{
  ℕ, ◌+◌, ◌-◌, ◌≡◌, refl, Bool, true, false, ◌&&◌, ◌||◌, leb, if◌then◌else◌, codes, is_alnum,
}
use clipnet.Util.Utf8.{encode}
use clipnet.Textutil.{is_space}
use clipnet.Transform.{Locale, t_title, t_sentence, t_invert, words_joined, t_trim, t_one_line}
use clipnet.Transform.Case.{IsRecased, t_title-IsRecased}

abbrev is_upper : ℕ → Bool
is_upper x = leb b'A' x && leb x b'Z'

abbrev is_lower : ℕ → Bool
is_lower x = leb b'a' x && leb x b'z'

abbrev ascii : Locale
ascii = record {
  up = λ x. if is_lower x then x - 32 else x;
  low = λ x. if is_upper x then x + 32 else x;
  alpha = λ x. is_upper x || is_lower x;
  alnum = is_alnum;
  space = is_space;
}

cases_run :
    (t_title ascii (codes "don't PANIC 2x") ≡ codes "Don't Panic 2x")
    × (t_sentence ascii (codes "a b. \"c d\nE") ≡ codes "A b. \"C d\ne")
    × (words_joined ascii true 0 (codes "fooBar baz") ≡ codes "fooBarBaz")
    × (words_joined ascii false b'_' (codes "don't fooBar, 2") ≡ codes "dont_foo_bar_2")
unfolding t_title t_sentence words_joined is_space encode
cases_run = (refl, refl, refl, refl)

lines_run :
    (t_one_line (codes "a  \r\n\n b\n") ≡ codes "a b") × (t_trim (codes " \ta b\n") ≡ codes "a b")
unfolding t_one_line t_trim is_space
lines_run = (refl, refl)

t_title-IsRecased_example :
    IsRecased ascii (codes "aB. c") (t_title ascii (codes "aB. c"))
    × IsRecased ascii (codes "aB. c") (t_sentence ascii (codes "aB. c"))
    × IsRecased ascii (codes "aB. c") (t_invert ascii (codes "aB. c"))
t_title-IsRecased_example = t_title-IsRecased ascii (codes "aB. c")
