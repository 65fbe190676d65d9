-- ===== src/Adapter/SystemdUnit/Properties.antt =====
-- internal/adapter/systemdunit.go: the properties that systemctl prints are read back.
use Prim.Native.Char.{Char, char, code}
use Prim.Native.String.append
use gpu_bouncer.Base.{
  ℕ, ◌≡◌, refl, ap, subst, sym, ◌∙◌, String, eq_iff, Bool, true, false, not, ◌&&◌, Option, none,
  some, [], ◌∷◌, arith, if◌then◌else◌, eqb, append_text,
}
use gpu_bouncer.Base.Dict.{Dict, lookup, insert, lookup-insert, Entries, Unique}
use gpu_bouncer.Base.Cutting.{
  is_space, trim_left, trim_right, trim_text, newline, split_lines, cut_at, is_empty,
}
use gpu_bouncer.Config.Unit.{all_codes}
use gpu_bouncer.Adapter.SystemdUnit.{set_property, parse_lines, parse_systemctl_show}

abbrev pub in_line : ℕ → Bool
in_line c = not (eqb c newline)

abbrev pub in_key : ℕ → Bool
in_key c = not (eqb c b'=') && in_line c

abbrev pub starts_dark : String → Bool
starts_dark String.[] = false
starts_dark (String.◌∷◌ c s) = not (is_space (code c))

-- A key is not empty, begins with no white space and has no `=` and no line end; a value is on one
-- line and does not end in white space.
abbrev pub IsKey : String → Type 0
IsKey k = (starts_dark k ≡ true) × (all_codes in_key k ≡ true)

abbrev pub IsValue : String → Type 0
IsValue v = (trim_right v ≡ v) × (all_codes in_line v ≡ true)

abbrev pub line_of : String → String → String
line_of key value = append_text key (append_text "=" value)

-- As `systemctl show` prints them: a line for each.
abbrev pub print_properties : Dict String → String
print_properties [] = ""
print_properties ((key, value) ∷ rest) =
    append_text (line_of key value) (append_text "\n" (print_properties rest))

-- One character in front.
append-char : (c : Char) (t : String) → append_text (String.◌∷◌ c "") t ≡ String.◌∷◌ c t
append-char c t = append.cons c "" t ∙ ap (String.◌∷◌ c) (append.nil t)

split-line :
    (l rest : String)
    → all_codes in_line l ≡ true
    → split_lines (append_text l (append_text "\n" rest)) ≡ l ∷ split_lines rest
unfolding split_lines
split-line String.[] rest h =
    ap split_lines (append.nil (append_text "\n" rest) ∙ append-char (char newline tt) rest)
split-line (String.◌∷◌ c l) rest h =
    ap split_lines (append.cons c l (append_text "\n" rest)) ∙ ground (arith, split-line l rest)

is_empty-line : (k v : String) → is_empty (line_of k v) ≡ false
is_empty-line String.[] v =
    ap is_empty (append.nil (append_text "=" v) ∙ append-char (char b'=' tt) v)
is_empty-line (String.◌∷◌ c k) v = ap is_empty (append.cons c k (append_text "=" v))

trim_right-line : (k v : String) → trim_right v ≡ v → trim_right (line_of k v) ≡ line_of k v
unfolding trim_right
trim_right-line String.[] v h =
    let front : line_of "" v ≡ String.◌∷◌ (char b'=' tt) v =
      append.nil (append_text "=" v) ∙ append-char (char b'=' tt) v in
    ap trim_right front ∙ ground (arith, h) ∙ sym front
trim_right-line (String.◌∷◌ c k) v h =
    let front = append.cons c k (append_text "=" v) in
    ap trim_right front ∙ (rw (trim_right-line k v h, is_empty-line k v) refl) ∙ sym front

cut-line : (k v : String) → all_codes in_key k ≡ true → cut_at b'=' (line_of k v) ≡ some (k, v)
unfolding cut_at
cut-line String.[] v h =
    ap (cut_at b'=') (append.nil (append_text "=" v) ∙ append-char (char b'=' tt) v)
cut-line (String.◌∷◌ c k) v h =
    ap (cut_at b'=') (append.cons c k (append_text "=" v)) ∙ ground (arith, cut-line k v)

trim_left-line : (k v : String) → starts_dark k ≡ true → trim_left (line_of k v) ≡ line_of k v
unfolding trim_left
trim_left-line String.[] v h = cc
trim_left-line (String.◌∷◌ c k) v h =
    let front = append.cons c k (append_text "=" v) in
    ap trim_left front ∙ ground (arith, h) ∙ sym front

trim_text-line : (k v : String) → IsKey k → IsValue v → trim_text (line_of k v) ≡ line_of k v
unfolding trim_text
trim_text-line k v hk hv = ap trim_right (trim_left-line k v hk.0) ∙ trim_right-line k v hv.0

-- The line of a property sets it.
set_property-line :
    (k v : String) (props : Dict String)
    → IsKey k
    → IsValue v
    → set_property (cut_at b'=' (trim_text (line_of k v))) props ≡ insert k v props
set_property-line k v props hk hv =
    ap (λ l. set_property (cut_at b'=' l) props) (trim_text-line k v hk hv)
    ∙ ap (λ c. set_property c props) (cut-line k v hk.1)
    ∙ dark k hk.0
  where
    dark :
        (t : String)
        → starts_dark t ≡ true
        → (if is_empty t then props else insert t v props) ≡ insert t v props
    dark String.[] d = cc
    dark (String.◌∷◌ c t) d = refl

all_codes-line : (k v : String) → IsKey k → IsValue v → all_codes in_line (line_of k v) ≡ true
all_codes-line k v hk hv = codes k hk.1
  where
    codes : (t : String) → all_codes in_key t ≡ true → all_codes in_line (line_of t v) ≡ true
    codes String.[] d =
        ap (all_codes in_line) (append.nil (append_text "=" v) ∙ append-char (char b'=' tt) v)
        ∙ hv.1
    codes (String.◌∷◌ c t) d =
        ap (all_codes in_line) (append.cons c t (append_text "=" v)) ∙ ground (arith, codes t, d)

abbrev IsProperty : String → String → Type 0
IsProperty k v = IsKey k × IsValue v

parse_lines-print :
    (name : String) (props acc : Dict String)
    → Entries IsProperty props
    → Unique props
    → lookup name (parse_lines (split_lines (print_properties props)) acc)
      ≡ elim (lookup name props) [ some v ↦ some v | none ↦ lookup name acc ]
unfolding lookup parse_lines split_lines cut_at trim_text trim_right trim_left
parse_lines-print name [] acc h u = refl
parse_lines-print name ((k, v) ∷ props) acc h u =
    ap (λ ls. lookup name (parse_lines ls acc))
      (split-line (line_of k v) (print_properties props) (all_codes-line k v h.0.0 h.0.1))
    ∙ ap (λ a. lookup name (parse_lines (split_lines (print_properties props)) a))
        (set_property-line k v acc h.0.0 h.0.1)
    ∙ parse_lines-print name props (insert k v acc) h.1 u.1
    ∙ ground (arith, eq_iff k name, lookup-insert k name v acc, absent)
  where
    absent : k ≡ name → lookup name props ≡ none
    absent e = subst (λ n. lookup n props ≡ none) e u.0

-- What is read from the lines that systemctl prints for some properties is those properties.
pub parse_systemctl_show-print :
    (props : Dict String) (name : String)
    → Entries (λ k v. IsKey k × IsValue v) props
    → Unique props
    → lookup name (parse_systemctl_show (print_properties props)) ≡ lookup name props
unfolding parse_systemctl_show lookup
parse_systemctl_show-print props name h u =
    parse_lines-print name props [] h u ∙ itself (lookup name props)
  where
    itself :
        (o : Option String) → elim o [ some v ↦ some v | none ↦ lookup {V = String} name [] ] ≡ o
    itself none = refl
    itself (some v) = refl
