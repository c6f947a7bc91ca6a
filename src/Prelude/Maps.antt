-- ===== src/Prelude/Maps.antt =====
-- A JavaScript `Map` or `Set` with text keys, as a function of the key. Writing, deleting and
-- reading are all that the sources do with these.
use Prim.Native.String.{String}
use mathlib.Core.Bool.{Bool, true, false}
use text.Mathlib.Text.{◌==◌ as str_eq}
use rr_net.Prelude.Tests.{if◌then◌else◌}

-- The map that is `m` except at `k`.
abbrev pub update {ℓ} : {V : Type ℓ} → (String → V) → String → V → String → V
update m k v j = if str_eq k j then v else m j

-- `undefined` and `null` text are falsy, and so is the empty one.
abbrev pub truthy : String → Bool
truthy s = if str_eq s "" then false else true
