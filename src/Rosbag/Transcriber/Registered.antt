-- ===== src/Rosbag/Transcriber/Registered.antt =====
-- Which callbacks the constructor of `Transcriber` registers.
use Prim.Native.String.{String}
use mrpt_navigation.Base.{List, [], ◌∷◌, Result, ok, ◌>>=◌, same_text, if◌then◌else◌}
use mrpt_navigation.Rosbag.Library.{Bag}
use mrpt_navigation.Rosbag.Transcriber.{Callback, Transcriber, parse_sensor}

module _ (bag : Bag) (base_link : String) where
  open bag use {Node, at, members}

  -- The sensors of a configuration, if all of them can be read.
  pub parse_all : List (String × Node) → Result (List (String × Callback bag base_link))
  parse_all [] = ok []
  parse_all (s ∷ ss) = parse_sensor bag base_link s >>= λ p. parse_all ss >>= λ ps. ok (p ∷ ps)

  abbrev pub for_topic :
      String → List (String × Callback bag base_link) → List (Callback bag base_link)
  for_topic topic [] = []
  for_topic topic ((k, c) ∷ ps) =
      if same_text topic k then c ∷ for_topic topic ps else for_topic topic ps
