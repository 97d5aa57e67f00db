-- ===== src/Integer/Greater.antt =====
-- `operator>` of vee/type/generic/unsigned_integer.h.
use vee.Common.{
  ℕ, zero, suc, ◌+◌, ◌-◌, ◌^◌, ◌%◌, ◌≤◌, ◌<◌, ◌≡◌, ◌∙◌, ◌*◌, ap, sym, subst, Bool, true, Option,
  none, some, List, arith, length, ltb, dec_lt, take, drop,
}
use native.Mathlib.Nat.{mod-eq_of_lt}
use mathlib.Core.Option.{some_inj}
use vee.Integer.Memory.{memmove, load, load_at}
use vee.Integer.Values.{IsBytes, load-lt, pow_mono}
use vee.Integer.Assign.{Holds, casting_greater_or_equal-Holds}
use vee.Integer.Comparator.{
  no_padding_required, padding_required, next_iteration, next_offset, compare_padded, compare_words,
  iterate, unsigned_greater_than,
}
use vee.Integer.{greater_than, greater_than_word, casting_greater_or_equal, casting_less, word_size}

greater_than-word :
    (data_ rhs : List ℕ)
    → length data_ ≤ length rhs
    → length rhs ≤ word_size
    → (temp : List ℕ) → casting_greater_or_equal word_size data_ ≡ some temp
    → greater_than data_ rhs ≡ some (ltb (load rhs) (load temp))
unfolding greater_than greater_than_word
greater_than-word data_ rhs le small temp e = ground (arith, e)

-- Compared with an operand that is no smaller and has at most 8 bytes, an integer answers whether
-- its value is the greater one.
pub greater_than_lem :
    (data_ rhs : List ℕ)
    → IsBytes data_
    → length data_ ≤ length rhs
    → length rhs ≤ word_size
    → greater_than data_ rhs ≡ some (ltb (load rhs) (load data_))
greater_than_lem data_ rhs v le small =
    greater_than-word data_ rhs le small c.bytes c.returns
    ∙ ap (λ n. some (ltb (load rhs) n)) (c.value ∙ mod-eq_of_lt in_word)
  where
    c : Holds (casting_greater_or_equal word_size data_) word_size (load data_ % 256 ^ word_size)
    c = casting_greater_or_equal-Holds word_size data_ (omega arith) v

    in_word : load data_ < 256 ^ word_size
    in_word = omega (arith, load-lt data_ v, pow_mono (length data_) word_size (omega arith))

casting_less-none :
    (data_ : List ℕ) → length data_ < word_size → casting_less word_size data_ ≡ none
unfolding casting_less memmove
casting_less-none data_ lt = ground arith

-- Compared with a smaller operand, an integer of fewer than 8 bytes reads beyond its own bytes.
pub greater_than_reads_beyond :
    (data_ rhs : List ℕ)
    → length rhs < length data_
    → length data_ < word_size
    → greater_than data_ rhs ≡ none
unfolding greater_than greater_than_word
greater_than_reads_beyond data_ rhs lt small = ground (arith, casting_less-none data_ small)

-- With more than 8 bytes to move into a word there is no defined result.
compare_padded-none :
    (lhs rhs : List ℕ) (remained : ℕ) → 8 < remained → compare_padded lhs rhs remained ≡ none
unfolding compare_padded memmove
compare_padded-none lhs rhs remained lt = ground arith

compare_words-none :
    (lhs rhs : List ℕ) (offset : ℕ) → offset < 8 → compare_words lhs rhs offset ≡ none
unfolding compare_words
compare_words-none lhs rhs offset lt = ground arith

next_iteration-words : (r : ℕ) → 16 ≤ r → r ≤ 2 ^ 63 → next_iteration r ≡ no_padding_required
unfolding next_iteration
next_iteration-words r le small = ground arith

next_iteration-padding : (r : ℕ) → 8 < r → r < 16 → next_iteration r ≡ padding_required
unfolding next_iteration
next_iteration-padding r lt small = ground arith

next_offset-words : (offset r : ℕ) → 16 ≤ r → r ≤ 2 ^ 63 → next_offset offset r ≡ offset - 8
unfolding next_offset
next_offset-words offset r le small = ground arith

next_offset-padding : (offset r : ℕ) → 8 < r → r < 16 → next_offset offset r ≡ offset
unfolding next_offset
next_offset-padding offset r lt small = ground arith

iterate-padding-none :
    (depth offset : ℕ) (lhs rhs : List ℕ)
    → 8 ≤ offset
    → iterate depth padding_required offset lhs rhs ≡ none
unfolding iterate
iterate-padding-none zero offset lhs rhs le = compare_padded-none lhs rhs (offset + 1) (omega arith)
iterate-padding-none (suc depth) offset lhs rhs le =
    compare_padded-none lhs rhs (offset + 1) (omega arith)

load_at-inside :
    (p : List ℕ) (start : ℕ)
    → start + 8 ≤ length p
    → load_at p start ≡ some (load (take 8 (drop start p)))
unfolding load_at
load_at-inside p start le = ground arith

-- How the words compare that begin 8, 16, 24 and so on before an index: one is greater on the left,
-- or none is.
pub data Words (lhs rhs : List ℕ) (offset : ℕ) : Option Bool → Type 0 where
  greater :
      (start k l r : ℕ)
      → start + 8 * suc k ≡ offset
      → load_at lhs start ≡ some l
      → load_at rhs start ≡ some r
      → r < l
      → Words lhs rhs offset (some true)
  outside :
      ((start k l r : ℕ)
        → start + 8 * suc k ≡ offset
        → load_at lhs start ≡ some l
        → load_at rhs start ≡ some r
        → l ≤ r)
      → Words lhs rhs offset none

-- One word more, which is not greater on the left.
Words-later :
    (lhs rhs : List ℕ) (start l r : ℕ) (answer : Option Bool)
    → load_at lhs start ≡ some l
    → load_at rhs start ≡ some r
    → l ≤ r
    → Words lhs rhs start answer
    → Words lhs rhs (start + 8) answer
Words-later lhs rhs start l r _ e e' le (greater start' k l' r' at f f' lt) =
    greater start' (suc k) l' r' (omega arith) f f' lt
Words-later lhs rhs start l r _ e e' le (outside all) = outside earlier
  where
    earlier :
        (start' k l' r' : ℕ)
        → start' + 8 * suc k ≡ start + 8
        → load_at lhs start' ≡ some l'
        → load_at rhs start' ≡ some r'
        → l' ≤ r'
    earlier start' zero l' r' at f f' =
        let same : start' ≡ start = omega arith in
        let el = some_inj.0 (sym e ∙ ap (load_at lhs) (sym same) ∙ f) in
        let er = some_inj.0 (sym e' ∙ ap (load_at rhs) (sym same) ∙ f') in omega (arith, el, er, le)
    earlier start' (suc k) l' r' at f f' = all start' k l' r' (omega arith) f f'

compare_words-inside :
    (lhs rhs : List ℕ) (start l r : ℕ)
    → load_at lhs start ≡ some l
    → load_at rhs start ≡ some r
    → compare_words lhs rhs (start + 8) ≡ some (ltb r l)
unfolding compare_words
compare_words-inside lhs rhs start l r e e' =
    let back : start + 8 - 8 ≡ start = omega arith in
    ground (arith, ap (load_at lhs) back, ap (load_at rhs) back, e, e')

-- What follows a comparison of words that answers false: the words before, or the padding.
next-Words :
    (depth start : ℕ) (lhs rhs : List ℕ)
    → start + 8 < 2 ^ 63
    → ((7 ≤ start) → Words lhs rhs start (iterate depth no_padding_required start lhs rhs))
    → Words lhs rhs start (
        iterate depth
          (next_iteration (start + 8 + 1))
          (next_offset (start + 8) (start + 8 + 1))
          lhs
          rhs)
next-Words depth start lhs rhs small rest = elim (dec_lt start 7) [
  | yes short ↦
      subst (Words lhs rhs start)
        (sym (
          ap (λ i. iterate depth i (next_offset (start + 8) (start + 8 + 1)) lhs rhs)
            (next_iteration-padding (start + 8 + 1) (omega arith) (omega arith))
          ∙ ap (λ o. iterate depth padding_required o lhs rhs)
              (next_offset-padding (start + 8) (start + 8 + 1) (omega arith) (omega arith))
          ∙ iterate-padding-none depth (start + 8) lhs rhs (omega arith)))
        (outside (λ start' k l r at e e'. absurd (omega arith)))
  | no more ↦
      subst (Words lhs rhs start)
        (sym (
          ap (λ i. iterate depth i (next_offset (start + 8) (start + 8 + 1)) lhs rhs)
            (next_iteration-words (start + 8 + 1) (omega arith) (omega arith))
          ∙ ap (λ o. iterate depth no_padding_required o lhs rhs)
              (next_offset-words (start + 8) (start + 8 + 1) (omega arith) (omega arith)
                ∙ omega arith)))
        (rest (omega arith))
]

-- One round, from a word inside both arrays.
iterate-Words_round :
    (depth start : ℕ) (lhs rhs : List ℕ)
    → start + 8 < length lhs
    → start + 8 < length rhs
    → start + 8 < 2 ^ 63
    → ((7 ≤ start) → Words lhs rhs start (iterate depth no_padding_required start lhs rhs))
    → Words lhs rhs (start + 8) (iterate (suc depth) no_padding_required (start + 8) lhs rhs)
unfolding iterate
iterate-Words_round depth start lhs rhs in_lhs in_rhs small rest =
    let l : ℕ = load (take 8 (drop start lhs)) in
    let r : ℕ = load (take 8 (drop start rhs)) in
    let el = load_at-inside lhs start (omega arith) in
    let er = load_at-inside rhs start (omega arith) in
    let c = compare_words-inside lhs rhs start l r el er in
    elim (dec_lt r l) [
      | yes lt ↦
          subst (Words lhs rhs (start + 8)) (ground (arith, c))
            (greater start 0 l r (omega arith) el er lt)
      | no le ↦ subst (Words lhs rhs (start + 8)) (ground (arith, c)) (
          Words-later lhs rhs start l r _ el er (omega arith)
            (next-Words depth start lhs rhs small rest))
    ]

iterate-Words :
    (depth offset : ℕ) (lhs rhs : List ℕ)
    → offset < length lhs
    → offset < length rhs
    → offset < 2 ^ 63
    → offset < 8 * depth
    → Words lhs rhs offset (iterate depth no_padding_required offset lhs rhs)
unfolding iterate
iterate-Words zero offset lhs rhs in_lhs in_rhs small deep = absurd (omega arith)
iterate-Words (suc depth) offset lhs rhs in_lhs in_rhs small deep = elim (dec_lt offset 8) [
  | yes before ↦
      subst (Words lhs rhs offset) (ground (arith, compare_words-none lhs rhs offset before))
        (outside (λ start k l r at e e'. absurd (omega arith)))
  | no inside ↦
      let whole : offset - 8 + 8 ≡ offset = omega arith in
      subst (λ o. Words lhs rhs o (iterate (suc depth) no_padding_required o lhs rhs)) whole
        (iterate-Words_round depth (offset - 8) lhs rhs (omega arith) (omega arith) (omega arith)
          (λ le.
            iterate-Words depth (offset - 8) lhs rhs (omega arith) (omega arith) (omega arith)
              (omega arith)))
]

-- On two arrays of n bytes, where n is at least 16 and at most 2 ^ 63, the comparator answers true
-- if one of the words that begin at the indices n - 9, n - 17 and so on is greater on the left,
-- whatever the words above it are. Otherwise it accesses memory outside its arrays or moves more
-- than 8 bytes into a word. It never answers false, which is what it would answer out of depth.
pub unsigned_greater_than-Words :
    (n : ℕ) (lhs rhs : List ℕ)
    → 16 ≤ n
    → n ≤ 2 ^ 63
    → length lhs ≡ n
    → length rhs ≡ n
    → Words lhs rhs (n - 1) (unsigned_greater_than n lhs rhs)
unfolding unsigned_greater_than
unsigned_greater_than-Words n lhs rhs le small el er =
    subst (λ i. Words lhs rhs (n - 1) (iterate n i (n - 1) lhs rhs))
      (sym (next_iteration-words n le small))
      (iterate-Words n (n - 1) lhs rhs (omega arith) (omega arith) (omega arith) (omega arith))

-- On shorter arrays of more than 8 bytes it moves more than 8 bytes into a word.
pub unsigned_greater_than_overfills :
    (n : ℕ) (lhs rhs : List ℕ) → 8 < n → n < 16 → unsigned_greater_than n lhs rhs ≡ none
unfolding unsigned_greater_than
unsigned_greater_than_overfills n lhs rhs lt short =
    ground (
      arith,
      next_iteration-padding n lt short,
      iterate-padding-none n (n - 1) lhs rhs (omega arith),
    )
