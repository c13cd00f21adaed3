-- ===== src/Rpc/Args/Entries.antt =====
-- Reading the arguments of a request of src/handler/tau_handler.cpp one after the other: what is read
-- is what stands in the text, whatever was read before.
use tau_shell.Prelude.{
  ℕ, ◌≡◌, ◌≤◌, refl, ap, subst, set, ◌∙◌, some, Option, List, ◌∷◌, ◌++◌, Bytes, String, length,
  codes, take, drop,
}
use tau_shell.Prelude.Int.{ℤ, pos}
use tau_shell.Fault.{Res, Fault, ok, fault}
use tau_shell.Program.{Program, resume, resume-ok}
use tau_shell.Text.{show_ℤ}
use tau_shell.Json.{TokenType, Tokens}
use tau_shell.Json.Flat.{
  Entry, Above, AllStand, Stands, lookup, value_token, object_tokens, lookup-Stands,
  AllStand-set_end,
}
use tau_shell.Json.Flat.Cuts.{AllStand-cut, find_key-lookup}
use tau_shell.Hex.{IsLawful, AllBytes}
use tau_shell.Rpc.Session.{Env, World}
use tau_shell.Rpc.Args.{
  span_at, size_of, key, terminate, text_at, int_at, pubkey_at, string_chain_id_at, set_buffer,
}
use tau_shell.Rpc.Args.Laws.{
  Value, span_at-Value, terminate-Value, text_at-Value, size_of-Value, IsInt32, terminate-Value,
  text_at-Value, int_at-IsInt32, int_at-show_ℤ, as_int, pubkey_at-Value, string_chain_id_at-Value,
}

abbrev pub with_buffer : World → Bytes → World
with_buffer w buf = record w { buffer = buf }

-- The program ends so, for some text of the request.
abbrev pub Ends : Program World (Unit {0}) → World → (Bytes → Res (Unit {0} × World)) → Type 0
Ends m w out = (buf : Bytes) × (m w ≡ out buf)

-- It returns, in the world `w'` up to the text.
abbrev pub returned : World → Bytes → Res (Unit {0} × World)
returned w' buf = ok (tt, with_buffer w' buf)

abbrev pub faulted : Fault → Bytes → Res (Unit {0} × World)
faulted e buf = fault e

-- An object of a request, which stands in its text above position `bottom`.
pub record Request : Type 0 where
  pub first : ℕ
  pub last : ℕ
  pub entries : List Entry
  pub rest : Tokens
  pub bottom : ℕ
  pub above : Above bottom entries

module _ (r : Request) where
  abbrev pub tokens : Option Tokens
  tokens = some (object_tokens r.first r.last r.entries r.rest)

  -- The first entry of that name and type has the value.
  pub record Given (name : String) (type : TokenType) (value : Bytes) : Type 0 where
    pub entry : Entry
    pub found : lookup (codes name) type r.entries ≡ some entry
    pub has : entry.value ≡ value

  Given-Stands :
      {name : String} {type : TokenType} {value : Bytes} (g : Given name type value) (buf : Bytes)
      → AllStand buf r.entries
      → Stands buf g.entry.value_start g.entry.value_end value
  Given-Stands g buf h =
      subst (λ v. Stands buf g.entry.value_start g.entry.value_end v) g.has
        (lookup-Stands buf _ _ r.entries g.entry h g.found)

  abbrev value_of :
      {name : String} {type : TokenType} {value : Bytes} (g : Given name type value) (buf : Bytes)
      → AllStand buf r.entries
      → Value buf (value_token g.entry) value
  value_of g buf h = record {
    first = g.entry.value_start;
    last = g.entry.value_end;
    starts = refl;
    stops = refl;
    stands = (Given-Stands g buf h).0;
  }

  pub size_of-Given :
      {name : String} {type : TokenType} {value : Bytes} (g : Given name type value) (buf : Bytes)
      → AllStand buf r.entries
      → size_of (value_token g.entry) ≡ pos (length value)
  size_of-Given g buf h = size_of-Value buf (value_token g.entry) _ (value_of g buf h)

  pub terminate-Given :
      {name : String} {type : TokenType} {value : Bytes} (g : Given name type value) (w : World)
      → AllStand w.buffer r.entries
      → terminate (value_token g.entry) w
        ≡ ok (tt, with_buffer w (set w.buffer g.entry.value_end 0))
  terminate-Given g w h = terminate-Value (value_token g.entry) w _ (value_of g w.buffer h)

  ended-AllStand :
      {name : String} {type : TokenType} {value : Bytes} (g : Given name type value) (buf : Bytes)
      → AllStand buf r.entries
      → AllStand (set buf g.entry.value_end 0) r.entries
  ended-AllStand g buf h = AllStand-set_end buf _ _ r.bottom r.entries g.entry r.above g.found h

  abbrev GoesOn :
      {A : Type 0}
      → A
      → (A → Program World (Unit {0}))
      → World
      → (Bytes → Res (Unit {0} × World))
      → Type 0
  GoesOn a f w out = (buf : Bytes) → AllStand buf r.entries → Ends (f a) (with_buffer w buf) out

  go_on :
      {A : Type 0} (m : Program World A) (a : A) (f : A → Program World (Unit {0})) (w : World)
      (out : Bytes → Res (Unit {0} × World)) (buf : Bytes)
      → m w ≡ ok (a, with_buffer w buf)
      → AllStand buf r.entries
      → GoesOn a f w out
      → Ends (λ s. resume (m s) f) w out
  go_on m a f w out buf e h k = let (buf', returns) = k buf h in (buf', resume-ok f e ∙ returns)

  pub key-Given :
      (name : String) (type : TokenType) {value : Bytes} (g : Given name type value)
      (f : Option Tokens → Program World (Unit {0})) (w : World)
      (out : Bytes → Res (Unit {0} × World))
      → AllStand w.buffer r.entries
      → ((more : Tokens) → GoesOn (some (value_token g.entry ∷ more)) f w out)
      → Ends (λ s. resume (key tokens type name s) f) w out
  key-Given name type g f w out h k =
      go_on (key tokens type name) _ f w out _
        (ap (set_buffer w) (
          find_key-lookup r.first r.last r.bottom r.entries r.rest w.buffer (codes name) type
            g.entry r.above h g.found))
        (AllStand-cut w.buffer (codes name) type r.bottom r.entries r.above h) (k _)

  module _ {name : String} {type : TokenType} where
    pub int_at-Given :
        {i : ℤ} (g : Given name type (show_ℤ i)) (f : ℤ → Program World (Unit {0})) (w : World)
        (out : Bytes → Res (Unit {0} × World))
        → IsInt32 i
        → AllStand w.buffer r.entries
        → GoesOn i f w out
        → Ends (λ s. resume (int_at (value_token g.entry) s) f) w out
    int_at-Given {i} g f w out fits h k =
        go_on (int_at (value_token g.entry)) i f w out w.buffer
          (int_at-IsInt32 (value_token g.entry) w i (value_of g w.buffer h)
            ((Given-Stands g w.buffer h).1) fits)
          h k

    -- A number of any size.
    pub int_at-as_int :
        (i : ℤ) (g : Given name type (show_ℤ i)) (f : ℤ → Program World (Unit {0})) (w : World)
        (out : Bytes → Res (Unit {0} × World))
        → AllStand w.buffer r.entries
        → GoesOn (as_int i) f w out
        → Ends (λ s. resume (int_at (value_token g.entry) s) f) w out
    int_at-as_int i g f w out h k =
        go_on (int_at (value_token g.entry)) (as_int i) f w out w.buffer
          (int_at-show_ℤ (value_token g.entry) w i (value_of g w.buffer h)
            ((Given-Stands g w.buffer h).1))
          h k

    -- The value where it is copied, and where it is read as a C string.
    pub span_at-Given :
        {value : Bytes} (g : Given name type value) (f : Bytes → Program World (Unit {0}))
        (w : World) (out : Bytes → Res (Unit {0} × World))
        → AllStand w.buffer r.entries
        → GoesOn value f w out
        → Ends (λ s. resume (span_at (value_token g.entry) s) f) w out
    span_at-Given {value} g f w out h k =
        go_on (span_at (value_token g.entry)) value f w out w.buffer
          (span_at-Value (value_token g.entry) w value (value_of g w.buffer h)) h k

    pub text_at-Given :
        {value : Bytes} (g : Given name type value) (f : Bytes → Program World (Unit {0}))
        (w : World) (out : Bytes → Res (Unit {0} × World))
        → AllStand w.buffer r.entries
        → GoesOn value f w out
        → Ends
            (λ s.
              resume
                (terminate (value_token g.entry) s)
                (λ _ s'. resume (text_at (value_token g.entry) s') f))
            w
            out
    text_at-Given {value} g f w out h k =
        let t = value_token g.entry in
        let v = value_of g w.buffer h in
        let (buf, returns) = k (set w.buffer g.entry.value_end 0) (ended-AllStand g w.buffer h) in
        (
          buf,
          resume-ok _ (terminate-Value t w value v)
              ∙ (resume-ok f (text_at-Value t w value v) ∙ returns),
        )

    module _ (env : Env) (lawful : IsLawful env.platform) where
      pub pubkey_at-Given :
          {pubkey : Bytes} (g : Given name type (env.platform.to_hex pubkey))
          (f : Bytes → Program World (Unit {0})) (w : World) (out : Bytes → Res (Unit {0} × World))
          → AllBytes pubkey
          → length pubkey ≡ 32
          → AllStand w.buffer r.entries
          → GoesOn pubkey f w out
          → Ends (λ s. resume (pubkey_at env (value_token g.entry) s) f) w out
      pubkey_at-Given {pubkey} g f w out bytes size h k =
          go_on (pubkey_at env (value_token g.entry)) pubkey f w out _
            (pubkey_at-Value env lawful (value_token g.entry) w pubkey (value_of g w.buffer h) bytes
              size)
            (ended-AllStand g w.buffer h) k

      pub string_chain_id_at-Given :
          {b : Bytes} (g : Given name type (env.platform.to_hex (take 8 b) ++ drop 8 b))
          (f : Bytes → Program World (Unit {0})) (w : World) (out : Bytes → Res (Unit {0} × World))
          → AllBytes b
          → 8 ≤ length b
          → AllStand w.buffer r.entries
          → GoesOn b f w out
          → Ends (λ s. resume (string_chain_id_at env (value_token g.entry) s) f) w out
      string_chain_id_at-Given {b} g f w out bytes size h k =
          go_on (string_chain_id_at env (value_token g.entry)) b f w out _
            (string_chain_id_at-Value env lawful (value_token g.entry) w b (value_of g w.buffer h)
              bytes size)
            (ended-AllStand g w.buffer h) k
