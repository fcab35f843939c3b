-- ===== src/Actions.antt =====
-- crates/sysknife-daemon/src/actions: the constructors of actions, one child module for a few files
-- of that folder. `format!` and the array of a command's arguments are `concat` and a list.
pub mod Quoted
pub mod Deployment
pub mod Flatpak
pub mod Containers
pub mod Layering
pub mod Services
pub mod Monitor
pub mod Network
pub mod Users
pub mod Apt
pub mod Snap
pub mod Firewall
pub mod Kernel
use Prim.Native.String.{◌++◌ as append}
use lacs.Prelude.{ℕ, zero, suc, String, ◌/◌, ◌%◌, List, [], ◌∷◌, ltb, ◌==◌, if◌then◌else◌}
use lacs.Executor.{ActionMechanism, command}

abbrev pub command_mechanism : String → List String → ActionMechanism
command_mechanism program args = command program args

-- `format!`: the pieces of the text in order.
abbrev pub concat : List String → String
concat [] = ""
concat (s ∷ ss) = append s (concat ss)

-- `u32::to_string`: a round of fuel gives a digit, and `acc` follows.
abbrev digit : ℕ → String
digit d =
    if d == 0
    then "0"
    else if d == 1
    then "1"
    else if d == 2
    then "2"
    else if d == 3
    then "3"
    else if d == 4
    then "4"
    else if d == 5
    then "5"
    else if d == 6
    then "6"
    else if d == 7
    then "7"
    else if d == 8
    then "8"
    else "9"

abbrev digits : ℕ → ℕ → String → String
digits zero n acc = acc
digits (suc fuel) n acc =
    let more = append (digit (n % 10)) acc in
    let rest = digits fuel (n / 10) more in if ltb n 10 then more else rest

-- A `u32` has at most ten digits.
unfoldable pub u32_to_string : ℕ → String
u32_to_string n = digits 10 n ""
