-- ===== src/Errors.antt =====
-- The exceptions of domain/errors.py and application/services/auth.py, by class. What a message
-- says is not modelled.
pub data DomainError : Type 0 where
  domain_error : DomainError
  invalid_holding_period : DomainError
  invalid_amount : DomainError
  invalid_isin : DomainError
  authentication_failed : DomainError
  authorization_failed : DomainError
