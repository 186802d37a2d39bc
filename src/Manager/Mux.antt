-- ===== src/Manager/Mux.antt =====
-- pkg/manager/mux.go: a component that stands for one of several implementations.
use kelemetry.Base.{[], Bool, false, Option, none, some, String, if◌then◌else◌, ◌==◌, string_eq}
use kelemetry.Base.Map.{Map, lookup, insert}

-- `Impl` is the type of implementations.
pub record Mux (Impl : Type 0) : Type 0 where
  pub name : String
  pub enable_flag : Option Bool
  pub choices : Map String Impl
  pub default_choice : String
  pub which : String
  pub which_value : Option Impl

module _ {Impl : Type 0} where
  unfoldable pub new_mux : String → Bool → Mux Impl
  new_mux name explicit_enable = record {
    name = name;
    enable_flag = if explicit_enable then some false else none;
    choices = [];
    default_choice = "";
    which = "";
    which_value = none;
  }

  -- `WithImpl`; a second default panics, which is `none`, here and below.
  unfoldable pub with_impl : String → Bool → Impl → Mux Impl → Option (Mux Impl)
  with_impl name is_default impl mux =
      let added = record mux { choices = insert name impl mux.choices } in
      let chosen : Option (Mux Impl) =
        if mux.default_choice == "" then some (record added { default_choice = name }) else none in
      if is_default then chosen else some added

  -- `Setup`, after which the flag has its default, or what the command line gives.
  unfoldable pub setup : Option String → Mux Impl → Option (Mux Impl)
  setup flag mux =
      let chosen : String = elim flag [ none ↦ mux.default_choice | some name ↦ name ] in
      if mux.default_choice == "" then none else some (record mux { which = chosen })

  unfoldable pub impl_of : Mux Impl → Option Impl
  impl_of mux = elim mux.which_value [ none ↦ lookup mux.which mux.choices | some impl ↦ some impl ]

  -- `Init`; an implementation that is not there is an error, which is `none`.
  unfoldable pub init : Mux Impl → Option (Mux Impl)
  init mux = elim (lookup mux.which mux.choices) [
    | none ↦ none
    | some impl ↦ some (record mux { which_value = some impl })
  ]
