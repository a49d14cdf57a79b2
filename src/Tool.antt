-- ===== src/Tool.antt =====
-- internal/tool: the calculator, the clock tool and the registry that runs them.
pub mod Calculator
pub mod Registry
