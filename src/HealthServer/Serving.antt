-- ===== src/HealthServer/Serving.antt =====
-- src/health_server.rs `spawn`: the loop that accepts connections until the stop flag is set. Each
-- turn waits for a connection for at most 250 ms and then reads the flag; what it waited for and
-- what it read are the inputs, in their order.
use y_delta_crankers.Base.{
  ℕ, ◌≡◌, refl, ap, Bool, true, false, ◌||◌, List, [], ◌∷◌, ◌++◌, Option, map, if◌then◌else◌,
}
use y_delta_crankers.HealthServer.{handle_conn}

-- A connection: the first bytes it sends, and the ready flag when they are answered.
pub record Connection : Type 0 where
  pub request : List ℕ
  pub ready : Bool

-- How a wait ended: with a connection, with an error, or at the ceiling.
pub data Waited : Type 0 where
  accepted : Connection → Waited
  accept_failed timed_out : Waited

pub record Turn : Type 0 where
  pub waited : Waited
  pub stop : Bool

-- The connections that a turn hands to a task.
abbrev pub handed : Waited → List Connection
handed (accepted c) = c ∷ []
handed accept_failed = []
handed timed_out = []

-- What the tasks of the connections answer, in the order of the connections, and whether the server
-- has ended.
pub record Served : Type 0 where
  pub answers : List (Option (List ℕ))
  pub ended : Bool

abbrev answer : Connection → Option (List ℕ)
answer c = handle_conn c.ready c.request

unfoldable pub serve : List Turn → Served
serve [] = record { answers = []; ended = false }
serve (t ∷ ts) =
    let rest = serve ts in
    if t.stop
    then record { answers = []; ended = true }
    else record { answers = map answer (handed t.waited) ++ rest.answers; ended = rest.ended }

-- With a listener, if the address could be bound.
unfoldable pub spawn : Bool → List Turn → Served
spawn false turns = record { answers = []; ended = true }
spawn true turns = serve turns

-- The description: the turns before the one that sees the flag.
abbrev pub until_stop : List Turn → List Turn
until_stop [] = []
until_stop (t ∷ ts) = let rest = until_stop ts in if t.stop then [] else t ∷ rest

abbrev pub sees_stop : List Turn → Bool
sees_stop [] = false
sees_stop (t ∷ ts) = t.stop || sees_stop ts

abbrev pub connections : List Turn → List Connection
connections [] = []
connections (t ∷ ts) = handed t.waited ++ connections ts

-- A turn that does not see the flag.
handed-serve :
    (w : Waited) (answers : List (Option (List ℕ))) (cs : List Connection)
    → answers ≡ map answer cs
    → map answer (handed w) ++ answers ≡ map answer (handed w ++ cs)
handed-serve (accepted c) answers cs e = ap (λ r. answer c ∷ r) e
handed-serve accept_failed answers cs e = e
handed-serve timed_out answers cs e = e

serve_one :
    (w : Waited) (stop : Bool) (ts : List Turn)
    → ((serve ts).answers ≡ map answer (connections (until_stop ts)))
      × ((serve ts).ended ≡ sees_stop ts)
    → ((serve (record { waited = w; stop = stop } ∷ ts)).answers
        ≡ map answer (connections (until_stop (record { waited = w; stop = stop } ∷ ts))))
      × ((serve (record { waited = w; stop = stop } ∷ ts)).ended
          ≡ sees_stop (record { waited = w; stop = stop } ∷ ts))
unfolding serve
serve_one w true ts ih = (refl, refl)
serve_one w false ts ih = (handed-serve w _ _ ih.0, ih.1)

-- For every sequence of turns, a server whose address could be bound answers exactly the
-- connections that were accepted in the turns before the first that sees the stop flag, each as
-- `handle_conn` answers its request, in their order; and it ends if and only if some turn sees the
-- flag.
pub serve-until_stop :
    (turns : List Turn)
    → ((spawn true turns).answers ≡ map answer (connections (until_stop turns)))
      × ((spawn true turns).ended ≡ sees_stop turns)
unfolding serve spawn
serve-until_stop [] = (refl, refl)
serve-until_stop (t ∷ ts) = serve_one t.waited t.stop ts (serve-until_stop ts)
