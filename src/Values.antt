-- ===== src/Values.antt =====
-- The values of JavaScript that lib/serializer.js takes and lib/parser.js makes, and what the two rely on
-- outside this repository's own code: the conversion of texts to UTF-8 by Node, and jspack.js.
use node_amqp.Prelude.{ℕ, ◌≡◌, ◌≤ℤ◌, Bool, List, [], ◌∷◌, length, ℤ, negsuc, pos}

-- A number that is an integer, or any other one but NaN, of which nothing more is said.
pub data Number (D : Type 0) : Type 0 where
  int : ℤ → Number D
  fraction : D → Number D

-- A text is the list of its UTF-16 code units.
abbrev pub Text : Type 0
Text = List ℕ

mutual
  pub data Value (D : Type 0) : Type 0 where
    text : Text → Value D
    number : Number D → Value D
    boolean : Bool → Value D
    -- a Date, by its milliseconds
    date : ℤ → Value D
    -- a Buffer
    bytes : List ℕ → Value D
    array : Items D → Value D
    object : Entries D → Value D
    null : Value D
    -- `undefined`, a function or a symbol
    unsupported : Value D

  pub data Items (D : Type 0) : Type 0 where
    no_items : Items D
    item : Value D → Items D → Items D

  -- The own properties of an object, in the order in which `for in` meets them.
  pub data Entries (D : Type 0) : Type 0 where
    no_entries : Entries D
    entry : Text → Value D → Entries D → Entries D

-- What the code calls.
pub record Platform : Type 1 where
  pub Double : Type 0
  -- `Buffer.write` and `Buffer.byteLength`, `Buffer.toString('utf8')`
  pub encode : Text → List ℕ
  pub decode : List ℕ → Text
  -- `new jspack(true)`: `Pack('d', [value])`, `Unpack('d', octets)` and `Unpack('f', octets)`; `Unpack`
  -- returns an array
  pub pack_double : Number Double → List ℕ
  pub unpack_double : List ℕ → List (Number Double)
  pub unpack_single : List ℕ → List (Number Double)
  -- the division of JavaScript
  pub divide : ℤ → ℤ → Number Double
  -- `d > n`, and the integer that a bitwise operator or a byte of a Buffer takes `d` for
  pub exceeds : Double → ℕ → Bool
  pub cut : Double → ℤ
  -- the same for a text, an array and an object that stand where a number is wanted, and for their
  -- properties `0`, `1` and so on
  pub coerce : Value Double → ℤ
  pub element : Value Double → ℕ → ℤ
  -- whether a fraction is not NaN, and of what is not a value whether it is a function, or undefined
  pub is_truthy : Value Double → Bool
  pub is_undefined : Value Double → Bool
  -- the key of an index
  pub index_key : ℕ → Text

-- An integer that a double holds exactly.
abbrev pub IsExact : {D : Type 0} → Number D → Type 0
IsExact (int z) = (negsuc 0x1f_ffff_ffff_ffff ≤ℤ z) × (z ≤ℤ pos 0x20_0000_0000_0000)
IsExact (fraction d) = Unit

-- What their documentation promises. `IsWellFormed` says of a text that it has no lone surrogate.
pub record IsFaithful (p : Platform) (IsWellFormed : Text → Type 0) : Type 0 where
  pub decode-encode : (s : Text) → IsWellFormed s → p.decode (p.encode s) ≡ s
  pub length-pack_double : (n : Number p.Double) → length (p.pack_double n) ≡ 8
  pub unpack-pack_double :
      (n : Number p.Double) → IsExact n → p.unpack_double (p.pack_double n) ≡ n ∷ []
