-- ===== src/Json.antt =====
-- JSON documents. The accessors of `nlohmann::json` that the server calls are in `Platform`.
pub mod Access
use client_server_architectu.Prelude.{String, Bool, true, false}
use client_server_architectu.Prelude.Int.{ℤ}

-- A floating-point number is its text and its integral part, all that a conversion to `int` reads.
-- Arrays and objects are lists of values and of members, declared in the block.
mutual
  pub data Json : Type 0 where
    null : Json
    boolean : Bool → Json
    integer : ℤ → Json
    float : String → ℤ → Json
    string : String → Json
    array : Items → Json
    object : Members → Json

  pub data Items : Type 0 where
    nil : Items
    cons : Json → Items → Items

  pub data Members : Type 0 where
    end : Members
    member : String → Json → Members → Members

abbrev pub is_object : Json → Bool
is_object (object m) = true
is_object _ = false
