-- ===== src/Resilience/Budget.antt =====
-- The AI budget: the counter interface of src/domain/ai/budget-counter.ts (Counter), its in-process
-- implementation (InMemory) and the reservation of src/server/services/ai/budget/reserve-ai-budget.ts.
pub mod Counter
pub mod InMemory
pub mod Keys
pub mod Reserve
pub mod Whole
pub mod Limits
pub mod Settle
pub mod Tests
