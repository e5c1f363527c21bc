-- ===== src/Plugins/Common/Laws.antt =====
-- Laws of the shared plugin functions (plugins/common.c).
use inadyn.Prelude.{◌≡◌, ◌↔◌, Bool, true, arith, ◌||◌}
use inadyn.Prelude.Text.{Str, codes, contains}
use inadyn.Prelude.Int.{pos}
use inadyn.Error.{rc_ok}
use inadyn.Http.{Trans, http_status_valid}
use inadyn.Ddns.State.{Alias, Info}
use inadyn.Plugins.Common.{common_response}

-- The words of a body that mean success.
abbrev pub accepted : Str → Bool
accepted body =
    contains body (codes "good") || contains body (codes "nochg") || contains body (codes "OK")

-- An answer counts as a success exactly with status 200 and a body that has one of these words in it,
-- whatever else is in it.
pub common_response-ok :
    (trans : Trans) (info : Info) (alias : Alias)
    → common_response trans info alias ≡ rc_ok
      ↔ (trans.status ≡ pos 200) × (accepted trans.rsp_body ≡ true)
unfolding common_response http_status_valid
common_response-ok trans info alias = (λ h. ground arith, λ h. ground arith)
