-- ===== src/Gorpc/Values.antt =====
-- The XDR values that cmd/gorpc/jsonxdr.go converts, and the JSON documents that it reads. A value
-- stands for its `XdrBaseType`; it holds its type as far as the conversions use it.
use goxdr.Prelude.{
  ℕ, Bool, List, [], ◌∷◌, Option, none, some, Bytes, ◌==◌, ◌||◌, false, ◌++◌, if◌then◌else◌,
  bytes_eq, codes,
}

-- The basic types: a value is the number of its `XdrNum32` or `XdrNum64`, and an enum has a name.
pub data Kind : Type 0 where
  bool : Kind
  enum : Bytes → Kind
  int32 : Kind
  uint32 : Kind
  float32 : Kind
  int64 : Kind
  uint64 : Kind
  float64 : Kind

mutual
  pub data Value : Type 0 where
    scalar : Kind → ℕ → Value
    -- `XdrString` and `XdrVecOpaque`, with their bounds, and `XdrArrayOpaque`
    string : ℕ → Bytes → Value
    opaque : ℕ → Bytes → Value
    fixed : Bytes → Value
    -- `XdrPtr`, with what `new` allocates
    pointer : Value → Ptr → Value
    -- `XdrVec`, with its bound and a new element, and `XdrArray`
    vec : ℕ → Value → Items → Value
    array : Items → Value
    -- A struct, with its type's name
    struct : Bytes → Fields → Value
    -- A union: its type's name, the name, type and value of the discriminant, its arms, and the field `_u`
    union : Bytes → Bytes → Kind → ℕ → Arms → Body → Value

  pub data Ptr : Type 0 where
    absent : Ptr
    present : Value → Ptr

  pub data Items : Type 0 where
    nil : Items
    cons : Value → Items → Items

  pub data Fields : Type 0 where
    end : Fields
    field : Bytes → Value → Fields → Fields

  -- The arms of a union with their cases; the default arm comes last. An arm has its name, the name
  -- of its Go type and what a new one holds.
  pub data Arms : Type 0 where
    no_default : Arms
    void_default : Arms
    default : Bytes → Bytes → Value → Arms
    void_arm : List ℕ → Arms → Arms
    arm : List ℕ → Bytes → Bytes → Value → Arms → Arms

  -- `_u`: nil, or a pointer to a value of the named type
  pub data Body : Type 0 where
    unset : Body
    body : Bytes → Value → Body

-- `t.XdrTypeName()`, where HideFieldName can be true of it
abbrev pub kind_name : Kind → Bytes
kind_name bool = []
kind_name (enum name) = name
kind_name int32 = []
kind_name uint32 = []
kind_name float32 = []
kind_name int64 = []
kind_name uint64 = []
kind_name float64 = []

abbrev pub type_name : Value → Bytes
type_name (scalar k n) = kind_name k
type_name (string bound s) = []
type_name (opaque bound s) = []
type_name (fixed s) = []
type_name (pointer blank p) = []
type_name (vec bound blank xs) = []
type_name (array xs) = []
type_name (struct name fs) = name
type_name (union name tag kind n arms u) = name

unfoldable pub is_case : ℕ → List ℕ → Bool
is_case n [] = false
is_case n (c ∷ cs) = n == c || is_case n cs

abbrev pub count : Items → ℕ
count nil = 0
count (cons x xs) = ℕ.suc (count xs)

-- A document: a literal is the text of a number or of a Boolean. The keys of an object are distinct.
mutual
  pub data Json : Type 0 where
    null : Json
    lit : Bytes → Json
    str : Bytes → Json
    arr : Elems → Json
    obj : Members → Json

  pub data Elems : Type 0 where
    nil : Elems
    cons : Json → Elems → Elems

  pub data Members : Type 0 where
    end : Members
    member : Bytes → Json → Members → Members

-- What the package fmt and the generated String and Scan methods do for the basic types, `%q`, and
-- the text that `fmt.Sprint` makes of the float64 or bool which `json.Unmarshal` reads from a literal.
pub record Fmt : Type 0 where
  pub show : Kind → ℕ → Bytes
  pub scan : Kind → Bytes → Option ℕ
  pub quote : Bytes → Bytes
  pub reprint : Bytes → Bytes

-- The arm that a discriminant selects.
pub data Selection : Type 0 where
  invalid : Selection
  void : Selection
  chosen : Bytes → Bytes → Value → Selection

unfoldable pub select : ℕ → Arms → Selection
unfolding is_case
select n no_default = invalid
select n void_default = void
select n (default name type blank) = chosen name type blank
select n (void_arm cases rest) = if is_case n cases then void else select n rest
select n (arm cases name type blank rest) =
    if is_case n cases then chosen name type blank else select n rest

-- The accessor of an arm: the value in `_u` if it has the arm's type, else a new one. What is to be
-- done with either is passed on.
abbrev pub access {ℓ} : {A : Type ℓ} → Bytes → Option (Bytes × A) → A → A
access type none fresh = fresh
access type (some (held, a)) fresh = if bytes_eq held type then a else fresh

-- The name of an element, `x.Sprintf("%s[%d]", "", i)`
abbrev pub index_name : Fmt → ℕ → Bytes
index_name F i = b'[' ∷ F.show uint32 i ++ codes "]"
