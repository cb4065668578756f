-- ===== src/Client/Holding.antt =====
-- What the client of main/CoapClient.cpp holds open, read from the calls that it has made.
use matter_lwm2m_bridge.Base.{ℕ, suc, ◌+◌, Option, none, some, List, [], ◌∷◌, ◌++◌, ◌≡◌}
use matter_lwm2m_bridge.Client.Library.{Call, History, Response}
use matter_lwm2m_bridge.Client.State.{Client, Outcome, Step, ◌>>=◌}
use matter_lwm2m_bridge.Client.Ends.{EndsWith, EndsWith-bind}

-- The object of a pointer that is not null, on a list.
abbrev pub object_of : Option ℕ → List ℕ
object_of none = []
object_of (some p) = p ∷ []

-- The contexts that the calls made, and those that they freed.
abbrev pub contexts_made : History → List ℕ
contexts_made [] = []
contexts_made (Call.new_context p ∷ t) = object_of p ++ contexts_made t
contexts_made (_ ∷ t) = contexts_made t

abbrev pub contexts_freed : History → List ℕ
contexts_freed [] = []
contexts_freed (Call.free_context p ∷ t) = object_of p ++ contexts_freed t
contexts_freed (_ ∷ t) = contexts_freed t

-- The sessions that the calls made, and those that they released.
abbrev pub sessions_made : History → List ℕ
sessions_made [] = []
sessions_made (Call.new_client_session x y p ∷ t) = object_of p ++ sessions_made t
sessions_made (_ ∷ t) = sessions_made t

abbrev pub sessions_released : History → List ℕ
sessions_released [] = []
sessions_released (Call.session_release p ∷ t) = object_of p ++ sessions_released t
sessions_released (_ ∷ t) = sessions_released t

abbrev pub startups : History → ℕ
startups [] = 0
startups (Call.startup ∷ t) = suc (startups t)
startups (_ ∷ t) = startups t

abbrev pub cleanups : History → ℕ
cleanups [] = 0
cleanups (Call.cleanup ∷ t) = suc (cleanups t)
cleanups (_ ∷ t) = cleanups t

-- What is open according to the calls is exactly what the client holds.
pub record Holds (opened : ℕ) (c : Client) : Type 0 where
  pub context_held : contexts_made c.trace ≡ object_of c.ctx ++ contexts_freed c.trace
  pub session_held : sessions_made c.trace ≡ object_of c.session ++ sessions_released c.trace
  pub library_held : startups c.trace ≡ cleanups c.trace + opened

-- Before the context is made, before the session is made, and from then on.
pub record BeforeContext (c : Client) : Type 0 where
  pub held : Holds 1 c
  pub no_context : c.ctx ≡ none
  pub no_session : c.session ≡ none

pub record BeforeSession (c : Client) : Type 0 where
  pub held : Holds 1 c
  pub no_session : c.session ≡ none

-- A step that goes on has `Q`; one that does not has what is to be closed at `finish`.
abbrev pub Ends : {A : Type 0} → (Client → Type 0) → Outcome A × Client → Type 0
Ends Q r = EndsWith (Holds 1) (Holds 1) Q r

pub Ends-bind :
    {A B : Type 0} (m : Step A) (f : A → Step B) (Q R : Client → Type 0) (c : Client)
    → Ends {A = A} Q (m c)
    → ((a : A) (c' : Client) → Q c' → Ends {A = B} R (f a c'))
    → Ends {A = B} R ((m >>= f) c)
Ends-bind = EndsWith-bind (Holds 1) (Holds 1)

-- A handler leaves the library's objects and the calls alone.
abbrev pub IsTame : Option (Response → Client → Option Client) → Type 0
IsTame none = Unit {0}
IsTame (some h) =
    (r : Response) (c c' : Client)
    → h r c ≡ some c'
    → (c'.ctx ≡ c.ctx) × (c'.session ≡ c.session) × (c'.trace ≡ c.trace)
