-- ===== src/Prelude/Json.antt =====
-- JSON values, as the program handles them: tool inputs, tool outputs and tool state. A number is a
-- non-negative integer. An object holds its own entries in order.
use Prim.Native.Nat.{ℕ, ◌/◌, ◌%◌}
use Prim.Native.Char.{code}
use Prim.Native.String
use Prim.Native.String.{String}
use mathlib.Core.Bool.{Bool}
use agentlayer.Prelude.Tests.{ltb, eqb, if◌then◌else◌}
use agentlayer.Prelude.Decimal.{decimal}

mutual
  pub data Json : Type 0 where
    null : Json
    bool : Bool → Json
    num : ℕ → Json
    str : String → Json
    arr : Items → Json
    obj : Fields → Json

  pub data Items : Type 0 where
    nil : Items
    cons : Json → Items → Items

  pub data Fields : Type 0 where
    end : Fields
    field : String → Json → Fields → Fields

infixr 65 ◌&◌
abbrev ◌&◌ : String → String → String
a & b = String.◌++◌ a b

-- A digit of a `\u00XX` escape.
hex : ℕ → String
hex n =
    if ltb n 10
    then decimal n
    else if eqb n 10
    then "a"
    else if eqb n 11
    then "b"
    else if eqb n 12
    then "c"
    else if eqb n 13
    then "d"
    else if eqb n 14
    then "e"
    else "f"

-- The escapes of `JSON.stringify` for the character with code `c`, written `s`.
escape : ℕ → String → String
unfolding hex
escape c s =
    if eqb c 34
    then "\\\""
    else if eqb c 92
    then "\\\\"
    else if eqb c 8
    then "\\b"
    else if eqb c 9
    then "\\t"
    else if eqb c 10
    then "\\n"
    else if eqb c 12
    then "\\f"
    else if eqb c 13
    then "\\r"
    else if ltb c 32
    then "\\u00" & hex (c / 16) & hex (c % 16)
    else s

escaped : String → String
unfolding escape
escaped String.[] = ""
escaped (String.◌∷◌ c s) = escape (code c) (String.◌∷◌ c String.[]) & escaped s

quoted : String → String
unfolding escaped
quoted s = "\"" & escaped s & "\""

-- JSON.stringify
unfoldable mutual
  unfolding quoted

  pub stringify : Json → String
  stringify null = "null"
  stringify (bool b) = if b then "true" else "false"
  stringify (num n) = decimal n
  stringify (str s) = quoted s
  stringify (arr xs) = "[" & stringify_items xs & "]"
  stringify (obj fs) = "{" & stringify_fields fs & "}"

  pub stringify_items : Items → String
  stringify_items nil = ""
  stringify_items (cons x nil) = stringify x
  stringify_items (cons x (cons y xs)) = stringify x & "," & stringify_items (cons y xs)

  pub stringify_fields : Fields → String
  stringify_fields end = ""
  stringify_fields (field k v end) = quoted k & ":" & stringify v
  stringify_fields (field k v (field j w fs)) =
      quoted k & ":" & stringify v & "," & stringify_fields (field j w fs)
