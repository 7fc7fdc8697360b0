-- ===== src/Common/Link.antt =====
-- What becomes of a call of a server: it is answered, or it is not sent, or its answer is lost.
pub data Link : Type 0 where
  answers no_request no_answer : Link
