-- ===== src/Answers.antt =====
-- What an answer of a language model rests on: the evidence that is put into its prompt, and the
-- check that it cites it (src/domain/ai).
pub mod ContextTokenBudget
pub mod Grounding
