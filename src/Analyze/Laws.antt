-- ===== src/Analyze/Laws.antt =====
-- What a handler has below it when no rule has a reason.
use fearless.Analyze.Handler.{Handler}
