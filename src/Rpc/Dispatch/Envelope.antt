-- ===== src/Rpc/Dispatch/Envelope.antt =====
-- A request as handle_json_rpc of src/handler/tau_handler.cpp reads it, with its method, its tag and
-- its arguments in any order.
use tau_shell.Prelude.{
  ℕ, ◌<◌, ◌≡◌, refl, ap, sym, subst, drop, ◌∙◌, Option, none, Bool-cases, inl, inr, some, List, [],
  ◌∷◌, ◌++◌, Bytes, codes, length, set, length-set, lt→ltb, arith,
}
use tau_shell.Prelude.Int.{ℤ, pos}
use tau_shell.Fault.{ok}
use tau_shell.Memory.{store}
use tau_shell.Memory.Laws.{HasText-lt}
use tau_shell.Text.{show_ℤ, parse_number, clamp_int64}
use tau_shell.Json.{
  TokenType, Token, Tokens, string, primitive, object, find_key, find_int, cut_value,
}
use tau_shell.Json.Skip.{node, flatten}
use tau_shell.Json.Fields.{
  Field, InText, members, matches, lookup_field, cut_keys, find_key-lookup_field,
}
use tau_shell.Json.Flat.{
  Entry, Stands, AllStand, Clear, Outside, AllStand-set, HasText-set_outside, value_token,
}
use tau_shell.Rpc.Session.{Env, World}
use tau_shell.Rpc.Args.Laws.{Value, parse_number-HasText}
use tau_shell.Rpc.Args.Entries.{Request, tokens, with_buffer}
use tau_shell.Rpc.Service.{Handler}
use tau_shell.Rpc.Dispatch.{handlers, find_handler, handle_json_rpc}
use tau_shell.Rpc.Dispatch.Laws.{handle_json_rpc-call}

-- A NUL at position `e` leaves the keys of the request.
abbrev pub ClearKeys : ℕ → List Field → Type 0
ClearKeys e [] = Unit
ClearKeys e (f ∷ fs) = Outside e f.key_start f.key_end × ClearKeys e fs

InText-outside :
    (buf : Bytes) (e : ℕ) (fs : List Field)
    → ClearKeys e fs
    → InText buf fs
    → InText (set buf e 0) fs
InText-outside buf e [] clear h = tt
InText-outside buf e (f ∷ fs) (outside, clear) (text, above, h) =
    (HasText-set_outside buf _ _ e _ outside text, above, InText-outside buf e fs clear h)

find_int_found :
    (args : Option Tokens) (buf key : Bytes) (t : Token) (more : Tokens) (i : ℤ) {n : ℕ}
    {buf' buf'' : Bytes}
    → find_key args buf key primitive ≡ ok (some (t ∷ more), buf')
    → store buf' t.end 0 ≡ ok buf''
    → t.start ≡ pos n
    → parse_number (drop n buf'') ≡ some i
    → find_int args buf key ≡ ok (clamp_int64 i, buf'')
unfolding find_int cut_value
find_int_found args buf key t more i found stored at number =
    rw (found, stored, at) (ground (arith, number))

-- A number as a tag, with the tokens behind it.
pub record Tag : Type 0 where
  pub entry : Entry
  pub number : ℤ
  pub more : Tokens

abbrev pub with_tag : Option Tag → List Entry → List Entry
with_tag none es = es
with_tag (some t) es = t.entry ∷ es

with_tag-AllStand :
    (buf : Bytes) (tag : Option Tag) (es : List Entry)
    → AllStand buf (with_tag tag es)
    → AllStand buf es
with_tag-AllStand buf none es h = h
with_tag-AllStand buf (some t) es (k, n, h) = h

find_int_missing :
    (args : Option Tokens) (buf key : Bytes) {buf' : Bytes}
    → find_key args buf key primitive ≡ ok (none, buf')
    → find_int args buf key ≡ ok (pos 0, buf')
unfolding find_int cut_value
find_int_missing args buf key found = rw found refl

-- The method, the arguments and the tag, if it has one, of a request.
pub record Envelope : Type 0 where
  pub start : ℤ
  pub end : ℤ
  pub fields : List Field
  pub rest : Tokens
  pub method : Entry
  pub tag : Option Tag
  pub arguments : Request

module _ (v : Envelope) where
  abbrev pub request_tokens : Tokens
  request_tokens = flatten (node object v.start v.end (members v.fields)) ++ v.rest

  abbrev pub entries : List Entry
  entries = v.method ∷ with_tag v.tag v.arguments.entries

  -- A NUL at this position leaves all texts.
  abbrev pub IsApart : ℕ → Type 0
  IsApart e = Clear e entries × ClearKeys e v.fields

  abbrev pub KeysApart : List Field → Type 0
  KeysApart [] = Unit
  KeysApart (f ∷ fs) = IsApart f.key_end × KeysApart fs

  -- The tag is found, and a NUL behind it leaves all texts; or no primitive value has that name.
  abbrev pub FindsTag : Option Tag → Type 0
  FindsTag none = lookup_field (codes "tag") primitive v.fields v.rest ≡ none
  FindsTag (some t) =
      (lookup_field (codes "tag") primitive v.fields v.rest ≡ some (value_token t.entry ∷ t.more))
      × (t.entry.value ≡ show_ℤ t.number)
      × IsApart t.entry.value_end

  -- The lookups find the method, the tag and the arguments, and what is written leaves all texts.
  pub record IsWellFormed : Type 0 where
    pub more : Tokens
    pub finds_method :
        lookup_field (codes "method") string v.fields v.rest ≡ some (value_token v.method ∷ more)
    pub finds_tag : FindsTag v.tag
    pub finds_arguments :
        lookup_field (codes "arguments") object v.fields v.rest ≡ tokens v.arguments
    pub keys_apart : KeysApart v.fields
    pub method_apart : IsApart v.method.value_end
    pub arguments_apart : IsApart v.arguments.last

  -- Everything stands in the text.
  pub record Intact (buf : Bytes) : Type 0 where
    pub names : InText buf v.fields
    pub stand : AllStand buf entries
    pub fits : v.arguments.last < length buf

  Intact-set : (buf : Bytes) (e : ℕ) → IsApart e → Intact buf → Intact (set buf e 0)
  Intact-set buf e (clear, keys) h = record {
    names = InText-outside buf e v.fields keys h.names;
    stand = AllStand-set buf e entries clear h.stand;
    fits = omega (arith, length-set {0} buf e 0, h.fits);
  }

  Intact-cut :
      (key : Bytes) (type : TokenType) (fs : List Field) (buf : Bytes)
      → KeysApart fs
      → Intact buf
      → Intact (cut_keys key type fs buf)
  Intact-cut key type [] buf apart h = h
  Intact-cut key type (f ∷ fs) buf (spot, apart) h =
      let h' = Intact-set buf f.key_end spot h in
      elim (Bool-cases (matches key type f)) [
        | inl hit ↦
            let stop : cut_keys key type (f ∷ fs) buf ≡ set buf f.key_end 0 = rw hit in
            subst Intact (sym stop) h'
        | inr miss ↦
            let next : cut_keys key type (f ∷ fs) buf ≡ cut_keys key type fs (set buf f.key_end 0) =
              rw miss in
            subst Intact (sym next) (Intact-cut key type fs (set buf f.key_end 0) apart h')
      ]

  abbrev after_key : Bytes → TokenType → Bytes → Bytes
  after_key key type buf = cut_keys key type v.fields buf

  find_key-Intact :
      (key : Bytes) (type : TokenType) (buf : Bytes)
      → Intact buf
      → find_key (some request_tokens) buf key type
        ≡ ok (lookup_field key type v.fields v.rest, after_key key type buf)
  find_key-Intact key type buf h =
      find_key-lookup_field v.start v.end v.fields v.rest buf key type h.names

  abbrev method_value : (buf : Bytes) → Intact buf → Value buf (value_token v.method) v.method.value
  method_value buf h = record {
    first = v.method.value_start;
    last = v.method.value_end;
    starts = refl;
    stops = refl;
    stands = (h.stand.1).0;
  }

  store-fits : (buf : Bytes) (e : ℕ) → e < length buf → store buf (pos e) 0 ≡ ok (set buf e 0)
  unfolding store
  store-fits buf e h = rw (lt→ltb e (length buf) h)

  module _ (good : IsWellFormed) where
    -- What the tag is does not matter to the rest.
    abbrev TagRead : Bytes → Type 0
    TagRead buf =
        (n : ℤ) × (buf' : Bytes) × (find_int (some request_tokens) buf (codes "tag") ≡ ok (n, buf'))
        × Intact buf'

    find_int-tag :
        (tag : Option Tag) → v.tag ≡ tag → FindsTag tag → (buf : Bytes) → Intact buf → TagRead buf
    find_int-tag none same found buf h = (
      pos 0,
      after_key (codes "tag") primitive buf,
      find_int_missing (some request_tokens) buf (codes "tag") (
          find_key-Intact (codes "tag") primitive buf h
          ∙ ap (λ t. ok (t, after_key (codes "tag") primitive buf)) found),
      Intact-cut (codes "tag") primitive v.fields buf good.keys_apart h,
    )
    find_int-tag (some t) same (found, has_number, apart) buf h =
        let e = t.entry in
        let buf' = after_key (codes "tag") primitive buf in
        let h' = Intact-cut (codes "tag") primitive v.fields buf good.keys_apart h in
        let buf'' = set buf' e.value_end 0 in
        let h'' = Intact-set buf' e.value_end apart h' in
        let tag_of = λ (b : Bytes) (i : Intact b).
          subst (λ o. AllStand b (v.method ∷ with_tag o v.arguments.entries)) same i.stand in
        let (text, stop) : Stands buf'' e.value_start e.value_end (show_ℤ t.number) =
          subst (λ x. Stands buf'' e.value_start e.value_end x) has_number
            ((tag_of buf'' h'').2.1) in
        (
          clamp_int64 t.number,
          buf'',
          find_int_found (some request_tokens) buf (codes "tag") (value_token e) t.more t.number
              (find_key-Intact (codes "tag") primitive buf h ∙ ap (λ k. ok (k, buf')) found)
              (store-fits buf' e.value_end (HasText-lt buf' _ _ _ (((tag_of buf' h').2.1).0))) refl
              (parse_number-HasText _ _ _ t.number text stop),
          h'',
        )

    -- Where a well-formed request stands in the text, its handler is run on its arguments, whose texts
    -- still stand.
    pub handle_json_rpc-Envelope :
        (env : Env) (w : World) (fun : Option Tokens → Handler)
        → Intact w.buffer
        → find_handler v.method.value (handlers env) ≡ some fun
        → (buf : Bytes) × AllStand buf v.arguments.entries
          × (handle_json_rpc env request_tokens w ≡ fun (tokens v.arguments) (with_buffer w buf))
    unfolding flatten
    handle_json_rpc-Envelope env w fun h known =
        let b1 = after_key (codes "method") string w.buffer in
        let h1 = Intact-cut (codes "method") string v.fields w.buffer good.keys_apart h in
        let b2 = set b1 v.method.value_end 0 in
        let h2 = Intact-set b1 v.method.value_end good.method_apart h1 in
        let b3 = after_key (codes "arguments") object b2 in
        let h3 = Intact-cut (codes "arguments") object v.fields b2 good.keys_apart h2 in
        let (n, b5, read, h5) = find_int-tag v.tag refl good.finds_tag b3 h3 in
        let b6 = set b5 v.arguments.last 0 in
        let h6 = Intact-set b5 v.arguments.last good.arguments_apart h5 in
        (
          b6,
          with_tag-AllStand b6 v.tag v.arguments.entries (h6.stand.2),
          handle_json_rpc-call env request_tokens w b1 v.method.value (value_token v.method)
              good.more fun
              (find_key-Intact (codes "method") string w.buffer h
                ∙ ap (λ t. ok (t, b1)) good.finds_method)
              (method_value b1 h1) known
              (find_key-Intact (codes "arguments") object b2 h2
                ∙ ap (λ t. ok (t, b3)) good.finds_arguments)
              read (store-fits b5 v.arguments.last h5.fits),
        )
