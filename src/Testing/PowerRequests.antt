-- ===== src/Testing/PowerRequests.antt =====
-- A process's power requests, for examples: it refuses the calls that it is told to, and otherwise
-- keeps the books that Windows documents.
use chiu.Common.{ℕ, suc, Bool, true, false, if◌then◌else◌, List, [], ◌∷◌, String, arith}
use chiu.Common.Result.{Result, ok, err}
use chiu.Inhibitor.Windows.{PowerApi}
use chiu.Inhibitor.Requests.{Requests, assign, close, IsTracking}

-- The open requests, the next handle, and the answers that are refusals, the next call's first.
pub record Process : Type 0 where
  pub requests : Requests
  pub next : ℕ
  pub refusals : List Bool

abbrev refused : List Bool → Bool
refused [] = false
refused (b ∷ _) = b

abbrev rest : List Bool → List Bool
rest [] = []
rest (_ ∷ bs) = bs

abbrev code : ℕ
code = 5

abbrev answered : Requests → ℕ → Process → Process
answered requests next a = record { requests = requests; next = next; refusals = rest a.refusals }

abbrev create_request : Process → String → Process × Result ℕ ℕ
create_request a _ =
    if refused a.refusals
    then (answered a.requests a.next a, err code)
    else (answered ((a.next, false) ∷ a.requests) (suc a.next) a, ok a.next)

abbrev assign_request : Bool → Process → ℕ → ℕ → Process × Result (Unit {0}) ℕ
assign_request b a h _ =
    if refused a.refusals
    then (answered a.requests a.next a, err code)
    else (answered (assign h b a.requests) a.next a, ok tt)

abbrev close_request : Process → ℕ → Process × Result (Unit {0}) (ℕ × ℕ)
close_request a h =
    if refused a.refusals
    then (answered a.requests a.next a, err (code, h))
    else (answered (close h a.requests) a.next a, ok tt)

abbrev pub process : PowerApi Process
process = record {
  create_request = create_request;
  set_request = assign_request true;
  clear_request = assign_request false;
  close_request = close_request;
}

pub process-IsTracking : IsTracking process (λ a. a.requests)
process-IsTracking = record {
  created = λ a s h q. ground arith;
  not_created = λ a s q. ground arith;
  was_set = λ a h q. ground arith;
  not_set = λ a h q. ground arith;
  cleared = λ a h q. ground arith;
  not_cleared = λ a h q. ground arith;
  closed = λ a h q. ground arith;
  not_closed = λ a h c j q. ground arith;
}

-- Refuses to set the first request, and then to close it.
abbrev pub stubborn : Process
stubborn = record { requests = []; next = 7; refusals = false ∷ true ∷ true ∷ [] }
