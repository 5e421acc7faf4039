-- ===== src/Pf/Scene.antt =====
-- The scene of the debug window: `mrpt::opengl::Scene` as objects under their names, in the order
-- of their insertion. `getByName` finds the first; objects without a name have the empty one.
use Prim.Native.String.{String}
use mrpt_navigation.Base.{Option, none, some, List, [], ◌∷◌, ◌++◌, same_text, if◌then◌else◌}

module _ {Object : Type 0} where
  unfoldable pub get_by_name : String → List (String × Object) → Option Object
  get_by_name k [] = none
  get_by_name k ((j, o) ∷ s) = let rest = get_by_name k s in if same_text j k then some o else rest

  unfoldable pub insert_object : String → Object → List (String × Object) → List (String × Object)
  insert_object k o s = s ++ (k, o) ∷ []

  -- `removeObject` of what `getByName` found, if it found anything.
  unfoldable pub remove_object : String → List (String × Object) → List (String × Object)
  remove_object k [] = []
  remove_object k ((j, o) ∷ s) =
      let rest = remove_object k s in if same_text j k then s else (j, o) ∷ rest

  -- A change through the pointer that `getByName` found.
  unfoldable pub change_object :
      String → (Object → Object) → List (String × Object) → List (String × Object)
  change_object k f [] = []
  change_object k f ((j, o) ∷ s) =
      let rest = change_object k f s in if same_text j k then (j, f o) ∷ s else (j, o) ∷ rest
