-- ===== src/Startup/Options.antt =====
-- The command line of src/main.cpp: getopt_long with "c:d:i" and cmd_line_options, and what the loop
-- of main makes of its answers.
use tau_shell.Prelude.{
  ◌||◌, sym, append-nil, arith, ◌≡◌, refl, ap, ◌∙◌, Bool, true, false, Option, none, some, List, [],
  ◌∷◌, ◌++◌, Bytes, bytes_eq, codes, ◌==◌, if◌then◌else◌, ℕ, append_assoc,
}
use tau_shell.Fault.{Res, ok, fault, out_of_bounds}

pub record Options : Type 0 where
  pub config_file : Bytes
  pub daemonize : Bool
  pub initial : Bool

abbrev pub no_options : Options
no_options = record { config_file = []; daemonize = false; initial = false }

-- case 'c', case 'd' and case 'i' of the switch
abbrev pub on_config : Bytes → Options → Options
on_config optarg o = record o { config_file = optarg }

abbrev pub on_daemonize : Options → Options
on_daemonize o = record o { daemonize = true }

abbrev pub on_initial : Options → Options
on_initial o = record o { initial = true }

-- What a word of the command line leads to: the options so far, a wait for an argument, the end of the
-- options at "--", the usage text, or a read behind the table of long options, which has no end mark.
pub data Reading : Type 0 where
  options : Options → Reading
  argument : (Bytes → Options) → Reading
  last : Options → Reading
  usage past_table : Reading

-- A short option that takes an argument: the rest of the word, or the next word if there is none.
abbrev pub with_argument : (Bytes → Options) → Bytes → Reading
with_argument f [] = argument f
with_argument f (c ∷ cs) = options (f (c ∷ cs))

-- The letters behind a '-'. In "c:d:i" the 'd' takes an argument, which main does not look at.
unfoldable pub short_options : Bytes → Options → Reading
short_options [] o = options o
short_options (ch ∷ cs) o =
    let more = short_options cs (on_initial o) in
    if ch == b'c'
    then with_argument (λ optarg. on_config optarg o) cs
    else if ch == b'd'
    then with_argument (λ optarg. on_daemonize o) cs
    else if ch == b'i'
    then more
    else usage

-- the name in front of a '=', and what stands behind it
unfoldable pub split_name : Bytes → Bytes × Option Bytes
split_name [] = ([], none)
split_name (c ∷ cs) =
    let (name, value) = split_name cs in if c == b'=' then ([], some cs) else (c ∷ name, value)

abbrev pub required : (Bytes → Options) → Option Bytes → Reading
required f none = argument f
required f (some value) = options (f value)

abbrev pub no_value : Reading → Option Bytes → Reading
no_value r none = r
no_value r (some value) = usage

-- A name that is no entry is compared with what lies behind the table.
abbrev pub long_option : Bytes → Option Bytes → Options → Reading
long_option name value o =
    if bytes_eq name (codes "config")
    then required (λ optarg. on_config optarg o) value
    else if bytes_eq name (codes "daemonize")
    then no_value (options (on_daemonize o)) value
    else if bytes_eq name (codes "initial")
    then no_value (options (on_initial o)) value
    else if bytes_eq name (codes "help")
    then usage
    else past_table

-- A word that is no option is passed by: getopt_long moves it behind the options.
abbrev pub long_word : Bytes → Options → Reading
long_word [] o = last o
long_word (c ∷ cs) o = let (name, value) = split_name (c ∷ cs) in long_option name value o

abbrev pub dashed_word : Bytes → Options → Reading
dashed_word [] o = options o
dashed_word (c ∷ cs) o = if c == b'-' then long_word cs o else short_options (c ∷ cs) o

unfoldable pub read_word : Bytes → Options → Reading
read_word [] o = options o
read_word (c ∷ cs) o = if c == b'-' then dashed_word cs o else options o

-- The loop over the words behind the program's name: `none` where the usage is printed and main
-- returns 1.
unfoldable pub parse_words : List Bytes → Reading → Res (Option Options)
parse_words ws (last o) = ok (some o)
parse_words ws usage = ok none
parse_words ws past_table = fault out_of_bounds
parse_words [] (options o) = ok (some o)
parse_words [] (argument f) = ok none
parse_words (w ∷ ws) (options o) = parse_words ws (read_word w o)
parse_words (w ∷ ws) (argument f) = parse_words ws (options (f w))

unfoldable pub parse_options : List Bytes → Res (Option Options)
parse_options argv = parse_words argv (options no_options)

-- The ways to write an option: in one or two words, in short or long form.
pub data Form : Type 0 where
  config_words config_letter config_joined daemonize_eats : Bytes → Form
  long_daemonize long_initial initial_letter : Form
  passed_by : (c : ℕ) → (cs : Bytes) → (c == b'-') ≡ false → Form

abbrev pub words : Form → List Bytes
words (config_words f) = codes "--config" ∷ f ∷ []
words (config_letter f) = codes "-c" ∷ f ∷ []
words (config_joined f) = (codes "--config=" ++ f) ∷ []
words (daemonize_eats w) = codes "-d" ∷ w ∷ []
words long_daemonize = codes "--daemonize" ∷ []
words long_initial = codes "--initial" ∷ []
words initial_letter = codes "-i" ∷ []
words (passed_by c cs h) = (c ∷ cs) ∷ []

abbrev pub meaning : Form → Options → Options
meaning (config_words f) o = on_config f o
meaning (config_letter f) o = on_config f o
meaning (config_joined f) o = on_config f o
meaning (daemonize_eats w) o = on_daemonize o
meaning long_daemonize o = on_daemonize o
meaning long_initial o = on_initial o
meaning initial_letter o = on_initial o
meaning (passed_by c cs h) o = o

abbrev pub all_words : List Form → List Bytes
all_words [] = []
all_words (f ∷ fs) = words f ++ all_words fs

abbrev pub meanings : List Form → Options → Options
meanings [] o = o
meanings (f ∷ fs) o = meanings fs (meaning f o)

read_word-plain :
    (c : ℕ) (cs : Bytes) (o : Options) → (c == b'-') ≡ false → read_word (c ∷ cs) o ≡ options o
unfolding read_word
read_word-plain c cs o h = ground arith

parse_words-word :
    (f : Form) (ws : List Bytes) (o : Options)
    → parse_words (words f ++ ws) (options o) ≡ parse_words ws (options (meaning f o))
unfolding parse_words read_word short_options split_name
parse_words-word (config_words f) ws o = refl
parse_words-word (config_letter f) ws o = refl
parse_words-word (config_joined f) ws o = refl
parse_words-word (daemonize_eats w) ws o = refl
parse_words-word long_daemonize ws o = refl
parse_words-word long_initial ws o = refl
parse_words-word initial_letter ws o = refl
parse_words-word (passed_by c cs h) ws o = ap (parse_words ws) (read_word-plain c cs o h)

parse_words-words :
    (fs : List Form) (ws : List Bytes) (o : Options)
    → parse_words (all_words fs ++ ws) (options o) ≡ parse_words ws (options (meanings fs o))
unfolding parse_words
parse_words-words [] ws o = refl
parse_words-words (f ∷ fs) ws o =
    ap (λ l. parse_words l (options o)) (append_assoc (words f) (all_words fs) ws)
    ∙ (parse_words-word f (all_words fs ++ ws) o ∙ parse_words-words fs ws (meaning f o))

-- Any sequence of "--config FILE", "--config=FILE", "-c FILE", "--daemonize", "--initial", "-i" and
-- words that do not begin with a dash is read in order, so of several files the last one counts; but
-- "-d" takes the word behind it away, whatever that is.
pub parse_options-words :
    (fs : List Form) → parse_options (all_words fs) ≡ ok (some (meanings fs no_options))
unfolding parse_options parse_words
parse_options-words fs =
    ap (λ l. parse_words l (options no_options)) (sym (append-nil (all_words fs)))
    ∙ parse_words-words fs [] no_options

abbrev pub is_entry : Bytes → Bool
is_entry name =
    bytes_eq name (codes "config")
    || (bytes_eq name (codes "daemonize")
        || (bytes_eq name (codes "initial") || bytes_eq name (codes "help")))

long_option-past_table :
    (name : Bytes) (value : Option Bytes) (o : Options)
    → is_entry name ≡ false
    → long_option name value o ≡ past_table
long_option-past_table name value o unknown = ground arith

parse_words-past_table :
    (c : ℕ) (cs : Bytes) (ws : List Bytes) (o : Options)
    → is_entry ((split_name (c ∷ cs)).0) ≡ false
    → parse_words ((b'-' ∷ b'-' ∷ c ∷ cs) ∷ ws) (options o) ≡ fault out_of_bounds
unfolding parse_words read_word
parse_words-past_table c cs ws o unknown =
    ap (parse_words ws)
      (long_option-past_table ((split_name (c ∷ cs)).0) ((split_name (c ∷ cs)).1) o unknown)

-- The first long option that is none of the four makes getopt_long read behind the end of the table,
-- whatever options of these forms stand in front of it.
pub parse_options-past_table :
    (fs : List Form) (c : ℕ) (cs : Bytes) (ws : List Bytes)
    → is_entry ((split_name (c ∷ cs)).0) ≡ false
    → parse_options (all_words fs ++ (b'-' ∷ b'-' ∷ c ∷ cs) ∷ ws) ≡ fault out_of_bounds
unfolding parse_options
parse_options-past_table fs c cs ws unknown =
    parse_words-words fs _ no_options
    ∙ parse_words-past_table c cs ws (meanings fs no_options) unknown
