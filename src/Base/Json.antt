-- ===== src/Base/Json.antt =====
-- A value of `json.loads`: what the program stores in `dict` fields and passes through.
use Prim.Native.Nat.{ℕ}
use Prim.Native.String.{String}
use mathlib.Core.Bool.{Bool}
use native.Mathlib.Decide.{ℕ_discrete}
use paper_rag.Base.Equality.{string_discrete}

mutual
  pub data Json : Type 0 where
    null : Json
    boolean : Bool → Json
    number : ℕ → Json
    text : String → Json
    array : Items → Json
    object : Members → Json

  pub data Items : Type 0 where
    nil : Items
    cons : Json → Items → Items

  pub data Members : Type 0 where
    end : Members
    member : String → Json → Members → Members

pub Json-discrete : Discrete Json
Json-discrete = hlevel (ℕ_discrete, string_discrete)
