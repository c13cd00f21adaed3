-- ===== src/Startup/Config.antt =====
-- The config file of src/main.cpp, with the parts of fscanf that it uses: words that are copied into
-- arrays of fixed size, with no width in the format, and two numbers.
use tau_shell.Prelude.{
  ℕ, ◌≤◌, ◌<◌, ◌^◌, ◌≡◌, ◌≢◌, refl, ap, ◌∙◌, true, false, Option, none, some, List, [], ◌∷◌, ◌++◌,
  Bytes, length, length-append, get_or, leb, ◌==◌, if◌then◌else◌, ◌||◌, arith,
}
use tau_shell.Prelude.Int.{ℤ, pos}
use tau_shell.Fault.{Res, ok, fault, out_of_bounds, ◌>>=◌}
use tau_shell.Text.{skip_spaces, show_ℤ}
use tau_shell.Memory.Laws.{NoNul}
use tau_shell.Auth.File.{c_str, newline, scan_word, scan_int}
use tau_shell.Auth.File.Reload.Scan.{
  NoSpace, scan_word_word, scan_int-show_ℤ, skip_spaces_space, skip_spaces_word, skip_spaces-show_ℤ,
}

-- The arrays of main as the C strings in them, which are empty before anything is read.
pub record Config : Type 0 where
  pub device_id : Bytes
  pub account_seed : Bytes
  pub bootstrap_nodes : Bytes
  pub pid_file : Bytes
  pub error_log : Bytes
  pub debug_log : Bytes
  pub listen_port : ℤ
  pub rpc_port : ℤ
  pub shell_save_path : Bytes
  pub tau_save_path : Bytes

abbrev pub no_config : Config
no_config = record {
  device_id = [];
  account_seed = [];
  bootstrap_nodes = [];
  pid_file = [];
  error_log = [];
  debug_log = [];
  listen_port = pos 6881;
  rpc_port = pos 8080;
  shell_save_path = [];
  tau_save_path = [];
}

-- A word and its NUL have to fit into the array. At the end of the file the scan ends.
abbrev store_word :
    ℕ → (Bytes → Res (List Bytes × Bytes)) → Option (Bytes × Bytes) → Res (List Bytes × Bytes)
store_word size next none = ok ([], [])
store_word size next (some (word, rest)) =
    if leb size (length word)
    then fault out_of_bounds
    else (do (words, left) ← next (skip_spaces rest); ok (c_str word ∷ words, left))

-- "%s\n " for each of the arrays: the words that were read, and what is left of the file.
unfoldable pub scan_words : List ℕ → Bytes → Res (List Bytes × Bytes)
scan_words [] s = ok ([], s)
scan_words (size ∷ sizes) s = store_word size (scan_words sizes) (scan_word (length s) s)

-- What is left where "%d" finds no digit: a sign is consumed.
abbrev pub after_sign : Bytes → Bytes
after_sign [] = []
after_sign (c ∷ cs) = if c == b'-' || c == b'+' then cs else c ∷ cs

abbrev second_port : Bytes → ℤ → Option (ℤ × Bytes) → (Option ℤ × Option ℤ) × Bytes
second_port s i none = ((some i, none), after_sign (skip_spaces s))
second_port s i (some (j, rest)) = ((some i, some j), skip_spaces rest)

abbrev first_port : Bytes → Option (ℤ × Bytes) → (Option ℤ × Option ℤ) × Bytes
first_port s none = ((none, none), after_sign (skip_spaces s))
first_port s (some (i, rest)) = second_port (skip_spaces rest) i (scan_int (skip_spaces rest))

-- "%d\n %d\n"
unfoldable pub scan_ports : Bytes → (Option ℤ × Option ℤ) × Bytes
scan_ports s = first_port s (scan_int s)

abbrev pub or_default : Option ℤ → ℤ → ℤ
or_default none d = d
or_default (some i) d = i

-- The four fscanf of main. One that fails leaves its arrays empty, or the default of its port, and the
-- next goes on from there.
unfoldable pub read_config : Bytes → Res Config
unfolding scan_words scan_ports
read_config file = do
  (first, s₁) ← scan_words (33 ∷ 65 ∷ 1024 ∷ []) file
  (second, s₂) ← scan_words (256 ∷ 256 ∷ 256 ∷ []) s₁
  let ((listen_port, rpc_port), s₃) = scan_ports s₂
  (last, s₄) ← scan_words (256 ∷ 256 ∷ []) s₃
  ok (record {
    device_id = get_or first 0 [];
    account_seed = get_or first 1 [];
    bootstrap_nodes = get_or first 2 [];
    pid_file = get_or second 0 [];
    error_log = get_or second 1 [];
    debug_log = get_or second 2 [];
    listen_port = or_default listen_port (pos 6881);
    rpc_port = or_default rpc_port (pos 8080);
    shell_save_path = get_or last 0 [];
    tau_save_path = get_or last 1 [];
  })

-- A word that an array of this size can hold.
pub record FitsArray (size : ℕ) (word : Bytes) : Type 0 where
  pub not_empty : word ≢ []
  pub one_word : NoSpace word
  pub clean : NoNul word
  pub short : length word < size

c_str-NoNul : (w : Bytes) → NoNul w → c_str w ≡ w
unfolding c_str
c_str-NoNul [] h = refl
c_str-NoNul (c ∷ w) (n, h) = ground (arith, c_str-NoNul w h)

-- One word a line.
abbrev pub lines : List Bytes → Bytes → Bytes
lines [] rest = rest
lines (w ∷ ws) rest = w ++ (newline ∷ lines ws rest)

abbrev pub AllFit : List ℕ → List Bytes → Type 0
AllFit [] [] = Unit
AllFit (n ∷ ns) (w ∷ ws) = FitsArray n w × AllFit ns ws
AllFit _ _ = ⊥

skip_spaces-lines :
    (sizes : List ℕ) (ws : List Bytes) (rest : Bytes)
    → AllFit sizes ws
    → skip_spaces rest ≡ rest
    → skip_spaces (lines ws rest) ≡ lines ws rest
skip_spaces-lines [] [] rest h still = still
skip_spaces-lines [] (w ∷ ws) rest h still = absurd h
skip_spaces-lines (n ∷ ns) [] rest h still = absurd h
skip_spaces-lines (n ∷ ns) (w ∷ ws) rest (fits, h) still =
    skip_spaces_word w (newline ∷ lines ws rest) fits.not_empty fits.one_word

scan_words-lines :
    (sizes : List ℕ) (ws : List Bytes) (rest : Bytes)
    → AllFit sizes ws
    → skip_spaces rest ≡ rest
    → scan_words sizes (lines ws rest) ≡ ok (ws, rest)
unfolding scan_words
scan_words-lines [] [] rest h still = refl
scan_words-lines [] (w ∷ ws) rest h still = absurd h
scan_words-lines (n ∷ ns) [] rest h still = absurd h
scan_words-lines (n ∷ ns) (w ∷ ws) rest (fits, h) still =
    let more = newline ∷ lines ws rest in
    let word : scan_word (length (w ++ more)) (w ++ more) ≡ some (w, more) =
      scan_word_word (length (w ++ more)) w newline (lines ws rest)
        (omega (arith, length-append w more)) fits.not_empty fits.one_word refl in
    let short : leb n (length w) ≡ false = ground (arith, fits.short) in
    let next : skip_spaces more ≡ lines ws rest =
      skip_spaces_space newline (lines ws rest) refl ∙ skip_spaces-lines ns ws rest h still in
    ap (store_word n (scan_words ns)) word
    ∙ rw (short, next, scan_words-lines ns ws rest h still, c_str-NoNul w fits.clean)

-- A first word that does not fit is written past its array.
scan_words-long :
    (size : ℕ) (sizes : List ℕ) (w rest : Bytes)
    → w ≢ []
    → NoSpace w
    → size ≤ length w
    → scan_words (size ∷ sizes) (w ++ newline ∷ rest) ≡ fault out_of_bounds
unfolding scan_words
scan_words-long size sizes w rest some_word one_word long =
    let more = newline ∷ rest in
    let word : scan_word (length (w ++ more)) (w ++ more) ≡ some (w, more) =
      scan_word_word (length (w ++ more)) w newline rest (omega (arith, length-append w more))
        some_word one_word refl in
    let large : leb size (length w) ≡ true = ground arith in
    ap (store_word size (scan_words sizes)) word ∙ rw large

abbrev pub port_line : ℕ → Bytes → Bytes
port_line port rest = show_ℤ (pos port) ++ newline ∷ rest

scan_ports-lines :
    (l r : ℕ) (rest : Bytes)
    → l < 2 ^ 31
    → r < 2 ^ 31
    → skip_spaces rest ≡ rest
    → scan_ports (port_line l (port_line r rest)) ≡ ((some (pos l), some (pos r)), rest)
unfolding scan_ports
scan_ports-lines l r rest hl hr still =
    let next : skip_spaces (newline ∷ port_line r rest) ≡ port_line r rest =
      skip_spaces_space newline (port_line r rest) refl ∙ skip_spaces-show_ℤ r (newline ∷ rest) in
    let last : skip_spaces (newline ∷ rest) ≡ rest = skip_spaces_space newline rest refl ∙ still in
    ap (first_port (port_line l (port_line r rest)))
      (scan_int-show_ℤ l newline (port_line r rest) hl refl)
    ∙ (ap (λ s. second_port s (pos l) (scan_int s)) next
        ∙ (ap (second_port (port_line r rest) (pos l)) (scan_int-show_ℤ r newline rest hr refl)
            ∙ rw last))

-- A config file, one setting a line.
abbrev pub config_text : List Bytes → List Bytes → ℕ → ℕ → List Bytes → Bytes
config_text first second l r last =
    lines first (lines second (port_line l (port_line r (lines last []))))

abbrev pub config_file : Config → ℕ → ℕ → Bytes
config_file c l r =
    config_text (c.device_id ∷ c.account_seed ∷ c.bootstrap_nodes ∷ [])
      (c.pid_file ∷ c.error_log ∷ c.debug_log ∷ []) l r (c.shell_save_path ∷ c.tau_save_path ∷ [])

pub record IsConfig (c : Config) (l r : ℕ) : Type 0 where
  pub first : AllFit (33 ∷ 65 ∷ 1024 ∷ []) (c.device_id ∷ c.account_seed ∷ c.bootstrap_nodes ∷ [])
  pub second : AllFit (256 ∷ 256 ∷ 256 ∷ []) (c.pid_file ∷ c.error_log ∷ c.debug_log ∷ [])
  pub last : AllFit (256 ∷ 256 ∷ []) (c.shell_save_path ∷ c.tau_save_path ∷ [])
  pub listens : c.listen_port ≡ pos l
  pub serves : c.rpc_port ≡ pos r
  pub listen_small : l < 2 ^ 31
  pub rpc_small : r < 2 ^ 31

-- A config file that has one setting a line is read as it was written, if each word fits into its
-- array with its NUL and the ports are below 2 ^ 31.
pub read_config-config_file :
    (c : Config) (l r : ℕ) → IsConfig c l r → read_config (config_file c l r) ≡ ok c
unfolding read_config
read_config-config_file c l r h =
    let words = c.shell_save_path ∷ c.tau_save_path ∷ [] in
    let still : skip_spaces [] ≡ [] = unfold skip_spaces in refl in
    let ports = port_line l (port_line r (lines words [])) in
    let still_ports : skip_spaces ports ≡ ports = skip_spaces-show_ℤ l _ in
    let still_last : skip_spaces (lines words []) ≡ lines words [] =
      skip_spaces-lines (256 ∷ 256 ∷ []) words [] h.last still in
    let paths = c.pid_file ∷ c.error_log ∷ c.debug_log ∷ [] in
    let still_paths : skip_spaces (lines paths ports) ≡ lines paths ports =
      skip_spaces-lines (256 ∷ 256 ∷ 256 ∷ []) paths ports h.second still_ports in
    rw
      (scan_words-lines (33 ∷ 65 ∷ 1024 ∷ [])
        (c.device_id ∷ c.account_seed ∷ c.bootstrap_nodes ∷ []) (lines paths ports) h.first
        still_paths)
      (rw (scan_words-lines (256 ∷ 256 ∷ 256 ∷ []) paths ports h.second still_ports) (
        rw (scan_ports-lines l r (lines words []) h.listen_small h.rpc_small still_last) (
          rw (scan_words-lines (256 ∷ 256 ∷ []) words [] h.last still) (rw (h.listens, h.serves)))))

-- A config file whose device id has 33 characters or more is written past the end of the array.
pub read_config-long :
    (w rest : Bytes)
    → w ≢ []
    → NoSpace w
    → 33 ≤ length w
    → read_config (w ++ newline ∷ rest) ≡ fault out_of_bounds
unfolding read_config
read_config-long w rest some_word one_word long =
    rw (scan_words-long 33 (65 ∷ 1024 ∷ []) w rest some_word one_word long)
