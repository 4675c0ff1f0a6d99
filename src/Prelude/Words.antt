-- ===== src/Prelude/Words.antt =====
-- Words of a text, as `std::istream >> std::string` reads them one after another.
use Prim.Native.Nat.{ℕ}
use mathlib.Core.Path.{◌≡◌, refl, sym, ap, ◌∙◌}
use mathlib.Core.Logic.{◌≢◌}
use mathlib.Core.Bool.{Bool, false, ◌&&◌, ◌||◌}
use mathlib.Core.List.{List, [], ◌∷◌, ◌++◌, append_assoc, append-nil}
use kvjet.Prelude.Lists.{Bytes, All}
use kvjet.Prelude.Tests.{leb, ◌==◌, if◌then◌else◌}

-- `std::isspace`
abbrev pub is_space : ℕ → Bool
is_space c = c == 32 || leb 9 c && leb c 13

-- A word ends where a space or the text ends; `word` is what has been read of it.
abbrev pub end_word : Bytes → List Bytes → List Bytes
end_word [] words = words
end_word (c ∷ word) words = (c ∷ word) ∷ words

unfoldable pub words_from : Bytes → Bytes → List Bytes
words_from word [] = end_word word []
words_from word (c ∷ text) =
    let in_word = words_from (word ++ c ∷ []) text in
    let rest = words_from [] text in if is_space c then end_word word rest else in_word

unfoldable pub words : Bytes → List Bytes
unfolding words_from
words text = words_from [] text

-- A text that is one word.
pub record IsWord (w : Bytes) : Type 0 where
  pub some_char : w ≢ []
  pub no_space : All (λ c. is_space c ≡ false) w

words_from-append :
    (word w text : Bytes)
    → All (λ c. is_space c ≡ false) w
    → words_from word (w ++ text) ≡ words_from (word ++ w) text
unfolding words_from
words_from-append word [] text h = ap (λ x. words_from x text) (sym (append-nil word))
words_from-append word (c ∷ w) text h = rw h.0 (
    words_from-append (word ++ c ∷ []) w text h.1
    ∙ ap (λ x. words_from x text) (append_assoc word (c ∷ []) w))

end_word-word : (w : Bytes) (rest : List Bytes) → w ≢ [] → end_word w rest ≡ w ∷ rest
end_word-word [] rest h = absurd (h refl)
end_word-word (c ∷ w) rest h = refl

-- A word in front of a space is the first one.
pub words-append : (w text : Bytes) → IsWord w → words (w ++ 32 ∷ text) ≡ w ∷ words text
unfolding words words_from
words-append w text h =
    words_from-append [] w (32 ∷ text) h.no_space ∙ end_word-word w (words_from [] text) h.some_char

pub words-word : (w : Bytes) → IsWord w → words w ≡ w ∷ []
unfolding words words_from
words-word w h =
    ap (words_from []) (sym (append-nil w))
    ∙ words_from-append [] w [] h.no_space
    ∙ end_word-word w [] h.some_char
