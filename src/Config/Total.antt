-- ===== src/Config/Total.antt =====
-- Parsing a section ends, and stays within its buffers, exactly as far as the lines are short.
use nvme_snsd.Base.{
  ℕ, zero, suc, ◌≡◌, ap, ◌∙◌, ◌≤◌, ◌<◌, Bool, false, not, ◌&&◌, ◌==◌, leb, if◌then◌else◌, if_cases,
  List, [], ◌∷◌, length, Option, none, some, Status, success, failure, arith, Holds,
}
use nvme_snsd.Config.Text.{is_space, is_newline}
use nvme_snsd.Config.Words.{
  Skip, section_end, item_end, skip_from, snsd_skip_invalid_comment, skip_newlines, snsd_skip_line,
}
use nvme_snsd.Config.Options.{Checks}
use nvme_snsd.Config.Items.{SectionKind, Config}
use nvme_snsd.Config.Parse.{
  line_of, tmp_line_size, snsd_split_with_sign, next_line, after_line, at_item, parse_from,
  snsd_section_parse,
}

-- From no position on is there a line of 1023 bytes or more.
unfoldable pub Short : List ℕ → Type 0
Short [] = Unit
Short (c ∷ cs) = (length (line_of (c ∷ cs)).0 < tmp_line_size) × Short cs

-- A position that a scan leads to, among at most `n` bytes.
abbrev SkipOk : ℕ → Skip → Type 0
SkipOk n section_end = Unit
SkipOk n (item_end s) = Short s × (length s ≤ n)

SkipOk-mono : (n m : ℕ) (r : Skip) → n ≤ m → SkipOk n r → SkipOk m r
SkipOk-mono n m section_end le h = tt
SkipOk-mono n m (item_end s) le h = (h.0, omega (arith, h.1))

skip_from-SkipOk : (b : Bool) (cs : List ℕ) → Short cs → SkipOk (length cs) (skip_from b cs)
unfolding skip_from Short
skip_from-SkipOk b [] h = tt
skip_from-SkipOk b (c ∷ cs) h =
    let comment' = if b then not (is_newline c) else c == b';' in
    if_cases (SkipOk (suc (length cs))) (not b && (not (is_space c) && not (c == b';')))
      (λ _. (h, omega arith))
      (λ _.
        SkipOk-mono (length cs) (suc (length cs)) (skip_from comment' cs) (omega arith)
          (skip_from-SkipOk comment' cs h.1))

skip_comment-SkipOk : (cs : List ℕ) → Short cs → SkipOk (length cs) (snsd_skip_invalid_comment cs)
unfolding snsd_skip_invalid_comment
skip_comment-SkipOk [] h = (h, omega arith)
skip_comment-SkipOk (c ∷ cs) h = skip_from-SkipOk false (c ∷ cs) h

skip_newlines-SkipOk : (cs : List ℕ) → Short cs → SkipOk (length cs) (skip_newlines cs)
unfolding skip_newlines Short
skip_newlines-SkipOk [] h = tt
skip_newlines-SkipOk (c ∷ cs) h =
    if_cases (SkipOk (suc (length cs))) (is_newline c)
      (λ _.
        SkipOk-mono (length cs) (suc (length cs)) (skip_newlines cs) (omega arith)
          (skip_newlines-SkipOk cs h.1))
      (λ _. (h, omega arith))

-- A line that is skipped takes a byte at least.
skip_line-SkipOk :
    (c : ℕ) (cs : List ℕ) → Short (c ∷ cs) → SkipOk (length cs) (snsd_skip_line (c ∷ cs))
unfolding snsd_skip_line Short
skip_line-SkipOk c [] h =
    if_cases (SkipOk 0) (is_newline c) (λ _. skip_newlines-SkipOk [] h.1) λ _. tt
skip_line-SkipOk c (d ∷ ds) h =
    if_cases (SkipOk (suc (length ds))) (is_newline c) (λ _. skip_newlines-SkipOk (d ∷ ds) h.1)
      λ _.
        SkipOk-mono (length ds) (suc (length ds)) (snsd_skip_line (d ∷ ds)) (omega arith)
          (skip_line-SkipOk d ds h.1)

-- What is left after a line.
line_rest :
    (buf : List ℕ) → Short buf → Short (line_of buf).1 × (length (line_of buf).1 ≤ length buf)
unfolding line_of Short
line_rest [] h = (tt, omega arith)
line_rest (c ∷ cs) h =
    let r = line_rest cs h.1 in
    if_cases (λ (p : List ℕ × List ℕ). Short p.1 × (length p.1 ≤ suc (length cs))) (is_newline c)
      (λ _. (h, omega arith)) λ _. (r.0, omega (arith, r.1))

line-Short : (buf : List ℕ) → Short buf → length (line_of buf).0 < tmp_line_size
unfolding Short line_of
line-Short [] h = omega arith
line-Short (c ∷ cs) h = h.0

-- A result without a fault.
abbrev pub Ends : Option (Config × Status) → Type 0
Ends = Holds (λ _. Unit {0})

-- What a run on fewer than `n` bytes promises.
abbrev Again : ℕ → (List ℕ → Config → Option (Config × Status)) → Type 0
Again n again = (s : List ℕ) (c : Config) → length s < n → Short s → Ends (again s c)

next_line-Ends :
    (again : List ℕ → Config → Option (Config × Status)) (m n : ℕ) (r : Skip) (c : Config)
    → Again n again
    → m < n
    → SkipOk m r
    → Ends (next_line again r c)
next_line-Ends again m n section_end c ok lt h = tt
next_line-Ends again m n (item_end s) c ok lt h = ok s c (omega (arith, h.1)) h.0

after_line-Ends :
    (again : List ℕ → Config → Option (Config × Status)) (n : ℕ) (r : (Config × Status) × List ℕ)
    → Again n again
    → Short r.1
    → length r.1 ≤ n
    → Ends (after_line again (some r))
unfolding snsd_skip_line
after_line-Ends again n ((c, failure e), rest) ok h le = tt
after_line-Ends again n ((c, success), []) ok h le = tt
after_line-Ends again n ((c, success), b ∷ bs) ok h le =
    next_line-Ends again (length bs) n (snsd_skip_line (b ∷ bs)) c ok (omega arith)
      (skip_line-SkipOk b bs h)

split-Ends :
    (o : Checks) (kind : SectionKind) (again : List ℕ → Config → Option (Config × Status)) (n : ℕ)
    (buf : List ℕ) (c : Config)
    → Again n again
    → Short buf
    → length buf ≤ n
    → Ends (after_line again (snsd_split_with_sign o kind buf c))
unfolding snsd_split_with_sign
split-Ends o kind again n buf c ok h le =
    let r = line_rest buf h in
    if_cases (λ q. Ends (after_line again q)) (leb tmp_line_size (length (line_of buf).0))
      (λ e. absurd (ground (arith, line-Short buf h)))
      (λ _. after_line-Ends again n _ ok r.0 (omega (arith, r.1)))

at_item-Ends :
    (o : Checks) (kind : SectionKind) (again : List ℕ → Config → Option (Config × Status)) (n : ℕ)
    (r : Skip) (c : Config)
    → Again n again
    → SkipOk n r
    → Ends (at_item o kind again r c)
at_item-Ends o kind again n section_end c ok h = tt
at_item-Ends o kind again n (item_end buf) c ok h = split-Ends o kind again n buf c ok h.0 h.1

parse_from-Ends :
    (fuel : ℕ) (o : Checks) (kind : SectionKind) (buf : List ℕ) (c : Config)
    → length buf < fuel
    → Short buf
    → Ends (parse_from fuel o kind buf c)
unfolding parse_from
parse_from-Ends zero o kind buf c enough h = absurd (omega arith)
parse_from-Ends (suc fuel) o kind [] c enough h = tt
parse_from-Ends (suc fuel) o kind (b ∷ bs) c enough h =
    at_item-Ends o kind (parse_from fuel o kind) (suc (length bs))
      (snsd_skip_invalid_comment (b ∷ bs)) c
      (λ s c' lt sh. parse_from-Ends fuel o kind s c' (omega arith) sh)
      (skip_comment-SkipOk (b ∷ bs) h)

-- A section in which no line has 1023 bytes or more is parsed to the end: the loops end, and no line
-- is written outside its buffer, whatever the section holds.
pub section_parse-Ends :
    (o : Checks) (kind : SectionKind) (buf : List ℕ) (c : Config)
    → Short buf
    → Ends (snsd_section_parse o kind buf c)
unfolding snsd_section_parse
section_parse-Ends o kind buf c h = parse_from-Ends (suc (length buf)) o kind buf c (omega arith) h

skip_nothing :
    (b : ℕ) (bs : List ℕ)
    → is_space b ≡ false
    → (b == b';') ≡ false
    → snsd_skip_invalid_comment (b ∷ bs) ≡ item_end (b ∷ bs)
unfolding snsd_skip_invalid_comment skip_from
skip_nothing b bs h k = ground arith

split-none :
    (o : Checks) (kind : SectionKind) (buf : List ℕ) (c : Config)
    → tmp_line_size ≤ length (line_of buf).0
    → snsd_split_with_sign o kind buf c ≡ none
unfolding snsd_split_with_sign
split-none o kind buf c long = ground arith

-- A section that begins with a line of 1023 bytes or more, which is neither blank at its beginning nor
-- a comment, is written outside the buffer for the line.
section_parse_overrun :
    (o : Checks) (kind : SectionKind) (b : ℕ) (bs : List ℕ) (c : Config)
    → is_space b ≡ false
    → (b == b';') ≡ false
    → tmp_line_size ≤ length (line_of (b ∷ bs)).0
    → snsd_section_parse o kind (b ∷ bs) c ≡ none
unfolding snsd_section_parse parse_from
section_parse_overrun o kind b bs c h k long =
    ap (λ r. at_item o kind (parse_from (suc (length bs)) o kind) r c) (skip_nothing b bs h k)
    ∙ ap (after_line (parse_from (suc (length bs)) o kind)) (split-none o kind (b ∷ bs) c long)
