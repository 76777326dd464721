-- ===== src/Netutil/Handles.antt =====
-- What the handlers of the SSH and of the HTTP proxy open and close.
--
-- A handler is a function from the answers of what it calls to what it does, in its order. A call
-- opens at most one handle of each kind.
use flakes.Common.{Bool, true, false, if◌then◌else◌, List, [], ◌∷◌, ◌++◌, Option, none, some}

pub data Handle : Type 0 where
  context upstream client channel body session : Handle

pub data Action (A : Type 0) : Type 0 where
  opens uses closes : Handle → Action A
  does : A → Action A

unfoldable pub same : Handle → Handle → Bool
same context context = true
same upstream upstream = true
same client client = true
same channel channel = true
same body body = true
same session session = true
same h j = false

unfoldable pub is_open : Handle → List Handle → Bool
unfolding same
is_open h [] = false
is_open h (j ∷ handles) = if same h j then true else is_open h handles

-- `Close`, which does nothing to a handle that is closed.
unfoldable pub close : Handle → List Handle → List Handle
unfolding same
close h [] = []
close h (j ∷ handles) = if same h j then close h handles else j ∷ close h handles

-- `defer` in front of the rest of a function.
unfoldable pub defer {ℓ} : {A : Type ℓ} → A → List A → List A
defer last rest = rest ++ last ∷ []

module _ {A : Type 0} where
  -- The handles that are open at the end, or `none` where one is opened twice or used while it is
  -- not open.
  unfoldable pub settle : List Handle → List (Action A) → Option (List Handle)
  unfolding is_open close
  settle handles [] = some handles
  settle handles (opens h ∷ actions) =
      let rest = settle (h ∷ handles) actions in if is_open h handles then none else rest
  settle handles (uses h ∷ actions) =
      let rest = settle handles actions in if is_open h handles then rest else none
  settle handles (closes h ∷ actions) = settle (close h handles) actions
  settle handles (does a ∷ actions) = settle handles actions
