-- ===== src/Definitions/Info.antt =====
-- The shape of the entries of lib/amqp-definitions-0-9-1.js.
use Prim.Native.String.{String}
use node_amqp.Prelude.{ℕ, List}

-- The domains of the fields, which lib/parser.js and lib/serializer.js switch on.
pub data Domain : Type 0 where
  bit octet short long timestamp longlong shortstr longstr table : Domain

pub record Field : Type 0 where
  pub name : String
  pub domain : Domain

pub record MethodInfo : Type 0 where
  pub name : String
  pub index : ℕ
  pub fields : List Field

pub record ClassInfo : Type 0 where
  pub name : String
  pub index : ℕ
  pub fields : List Field
  pub methods : List MethodInfo

abbrev pub field : String → Domain → Field
field name domain = record { name = name; domain = domain }

abbrev pub method : String → ℕ → List Field → MethodInfo
method name index fields = record { name = name; index = index; fields = fields }
