-- ===== src/Genpolicy/Limits.antt =====
-- The limits that decide the shape, and those that the manifest holds.
use policy_templates.Prelude.{Bytes, ◌==◌, Option, none, some, List, [], ◌∷◌, find, if◌then◌else◌}
use policy_templates.Descriptor.{EnvVar}
use policy_templates.Genpolicy.Value.{Value, string}
use policy_templates.Genpolicy.Shape.{Floats, memory_limit_mib}

abbrev key : EnvVar → Bytes
key e = e.name

-- `a`, or else `b`
abbrev or_entry : Option EnvVar → Option EnvVar → Option EnvVar
or_entry none b = b
or_entry (some a) b = some a

-- The first and the last entry of a name.
abbrev pub first : Bytes → List EnvVar → Option EnvVar
first name = find (λ (e : EnvVar). e.name == name)

abbrev one : Bytes → EnvVar → Option EnvVar
one name e = if e.name == name then some e else none

last : Bytes → List EnvVar → Option EnvVar
last name [] = none
last name (e ∷ es) = or_entry (last name es) (one name e)

abbrev pub value_of : Option EnvVar → Option Value
value_of none = none
value_of (some e) = some (string e.value)

abbrev or_value : Option Value → Option Value → Option Value
or_value none b = b
or_value (some a) b = some a

module _ (f : Floats) where
  -- The limit that a serialised map of limits states.
  abbrev pub stated_limit : Option Bytes → Option f.F64
  stated_limit none = none
  stated_limit (some value) = memory_limit_mib f value
