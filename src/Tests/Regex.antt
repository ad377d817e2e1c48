-- ===== src/Tests/Regex.antt =====
-- The theorems on the risk check at concrete patterns.
use smolmux.Base.{codes, some, [], ◌∷◌, ◌++◌, ◌≡◌, refl}
use smolmux.Regex.Risk.{overrun, check_redos_risk}
use smolmux.Regex.Risk.Overrun.{check_redos_risk_overrun}

check_redos_risk_overrun_example :
    check_redos_risk ((b'a' ∷ b'b' ∷ []) ++ b'[' ∷ (codes "invalid")) ≡ some overrun
check_redos_risk_overrun_example =
    check_redos_risk_overrun (b'a' ∷ b'b' ∷ []) (codes "invalid") refl refl
